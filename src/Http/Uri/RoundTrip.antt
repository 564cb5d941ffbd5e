-- ===== src/Http/Uri/RoundTrip.antt =====
-- `url_decode` against an encoder, and what it makes of other input.
use learning_cpp.Prelude.{
  ℕ, suc, ◌+◌, ◌-◌, ◌*◌, ◌/◌, ◌%◌, ◌<◌, ◌≤◌, ◌≡◌, refl, arith, Bool, true, false, ◌==◌, ltb, Option,
  none, some, if◌then◌else◌, [], ◌∷◌, All, Bytes, length,
}
use mathlib.Core.Option
use learning_cpp.Http.Uri.{is_space, prepend, escaped, hex_digit, hex_digits, read_hex, url_decode}

-- A digit, in lower case.
abbrev pub hex_of : ℕ → ℕ
hex_of d = if ltb d 10 then d + b'0' else d - 10 + b'a'

-- Every byte escaped.
abbrev pub percent : Bytes → Bytes
percent [] = []
percent (c ∷ cs) = b'%' ∷ hex_of (c / 16) ∷ hex_of (c % 16) ∷ percent cs

abbrev pub IsBytes : Bytes → Type 0
IsBytes = All (λ c. c < 256)

hex_digit_of : (d : ℕ) → d < 16 → hex_digit (hex_of d) ≡ some d
unfolding hex_digit
hex_digit_of d h = ground arith

read_two : (a b : ℕ) → a < 16 → b < 16 → read_hex (hex_of a ∷ hex_of b ∷ []) ≡ some (a * 16 + b)
unfolding read_hex hex_digits
read_two a b ha hb = ground (arith, hex_digit_of a ha, hex_digit_of b hb)

byte_split : (c : ℕ) → c < 256 → (c / 16 < 16) × (c % 16 < 16) × (c / 16 * 16 + c % 16 ≡ c)
byte_split c h = omega arith

-- What every byte is escaped in decodes to the bytes.
pub url_decode-percent : (cs : Bytes) → IsBytes cs → url_decode (percent cs) ≡ some cs
unfolding url_decode
url_decode-percent [] h = refl
url_decode-percent (c ∷ cs) h =
    let (a, b, e) = byte_split c h.0 in
    ground (arith, read_two (c / 16) (c % 16) a b, url_decode-percent cs h.1)

-- Neither `%` nor `+`.
abbrev pub IsPlain : Bytes → Type 0
IsPlain = All (λ c. ((c == b'%') ≡ false) × ((c == b'+') ≡ false))

-- Bytes other than `%` and `+` stand for themselves.
pub url_decode-IsPlain : (cs : Bytes) → IsPlain cs → url_decode cs ≡ some cs
unfolding url_decode
url_decode-IsPlain [] h = refl
url_decode-IsPlain (c ∷ []) h = ground arith
url_decode-IsPlain (c ∷ a ∷ []) h = ground (arith, url_decode-IsPlain (a ∷ []) h.1)
url_decode-IsPlain (c ∷ a ∷ b ∷ cs) h = ground (arith, url_decode-IsPlain (a ∷ b ∷ cs) h.1)

abbrev Fits : ℕ → Option Bytes → Type 0
Fits n none = Unit
Fits n (some out) = length out ≤ n

Fits-prepend : (c n : ℕ) (o : Option Bytes) → Fits n o → Fits (suc n) (prepend c o)
Fits-prepend c n none h = tt
Fits-prepend c n (some out) h = omega arith

Fits-escaped : (v : Option ℕ) (n : ℕ) (o : Option Bytes) → Fits n o → Fits (suc n) (escaped v o)
Fits-escaped none n o h = tt
Fits-escaped (some v) n o h = Fits-prepend v n o h

Fits_lem : (n m : ℕ) (o : Option Bytes) → n ≤ m → Fits n o → Fits m o
Fits_lem n m none h k = tt
Fits_lem n m (some out) h k = omega arith

Fits-if :
    (b : Bool) (n : ℕ) (o p : Option Bytes) → Fits n o → Fits n p → Fits n (if b then o else p)
Fits-if true n o p h k = h
Fits-if false n o p h k = k

url_decode-Fits : (cs : Bytes) → Fits (length cs) (url_decode cs)
unfolding url_decode
url_decode-Fits [] = omega arith
url_decode-Fits (c ∷ []) = ground arith
url_decode-Fits (c ∷ a ∷ []) =
    let rest = url_decode (a ∷ []) in
    let ih = url_decode-Fits (a ∷ []) in
    Fits-if (c == b'%') 2 none _ tt
      (Fits-if (c == b'+') 2 _ _ (Fits-prepend b' ' 1 rest ih) (Fits-prepend c 1 rest ih))
url_decode-Fits (c ∷ a ∷ b ∷ cs) =
    let n = length cs in
    let after = url_decode cs in
    let rest = url_decode (a ∷ b ∷ cs) in
    let ih = url_decode-Fits (a ∷ b ∷ cs) in
    let v = read_hex (a ∷ b ∷ []) in
    Fits-if (c == b'%') _ (escaped v after) _
      (Fits_lem (suc n) _ (escaped v after) (omega arith)
        (Fits-escaped v n after (url_decode-Fits cs)))
      (Fits-if (c == b'+') _ _ _ (Fits-prepend b' ' _ rest ih) (Fits-prepend c _ rest ih))

-- The result is never longer than the input.
pub length-url_decode :
    (cs : Bytes) {out : Bytes} → url_decode cs ≡ some out → length out ≤ length cs
length-url_decode cs e = rw e at (url_decode-Fits cs)

digit_no_space :
    (a : ℕ) (d : ℕ)
    → hex_digit a ≡ some d
    → (is_space a ≡ false) × ((a == b'-') ≡ false) × ((a == b'+') ≡ false)
unfolding hex_digit
digit_no_space a d h = ground arith

digit_bound : (a d : ℕ) → hex_digit a ≡ some d → d % 256 ≡ d
unfolding hex_digit
digit_bound a d h = ground arith

read_half :
    (a b d : ℕ)
    → hex_digit a ≡ some d
    → hex_digit b ≡ none
    → (b == b'x') ≡ false
    → (b == b'X') ≡ false
    → read_hex (a ∷ b ∷ []) ≡ some d
unfolding read_hex hex_digits
read_half a b d h k x y = let (s, m, p) = digit_no_space a d h in ground (arith, digit_bound a d h)

-- An escape with a second byte that is no hexadecimal digit is accepted as its first digit alone,
-- and the second byte is lost; but for "0x" and "0X", which are refused.
pub url_decode_half_escape :
    (a b : ℕ) (d : ℕ) (cs : Bytes)
    → hex_digit a ≡ some d
    → hex_digit b ≡ none
    → (b == b'x') ≡ false
    → (b == b'X') ≡ false
    → url_decode (b'%' ∷ a ∷ b ∷ cs) ≡ Option.map (◌∷◌ d) (url_decode cs)
unfolding url_decode
url_decode_half_escape a b d cs h k x y = rw (read_half a b d h k x y) (prepend_lem (url_decode cs))
  where
    prepend_lem : (o : Option Bytes) → prepend d o ≡ Option.map (◌∷◌ d) o
    prepend_lem none = refl
    prepend_lem (some out) = refl
