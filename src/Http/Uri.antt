-- ===== src/Http/Uri.antt =====
-- `request_handler::url_decode` of ad_system/server3/, with the `std::hex` extraction from a string
-- stream that it uses.
pub mod RoundTrip
use learning_cpp.Prelude.{
  ℕ, ◌+◌, ◌-◌, ◌*◌, ◌%◌, Bool, true, false, ◌&&◌, ◌||◌, leb, ◌==◌, Option, none, some,
  if◌then◌else◌, List, [], ◌∷◌, ◌++◌, Bytes,
}

-- The bytes that `isspace` names.
abbrev pub is_space : ℕ → Bool
is_space c = c == b' ' || (leb 9 c && leb c 13)

-- The value of a hexadecimal digit.
unfoldable pub hex_digit : ℕ → Option ℕ
hex_digit c =
    if leb b'0' c && leb c b'9'
    then some (c - b'0')
    else if leb b'a' c && leb c b'f'
    then some (c - b'a' + 10)
    else if leb b'A' c && leb c b'F'
    then some (c - b'A' + 10)
    else none

-- The digits up to the first byte that is none; `none` if there is no digit at all.
unfoldable pub hex_digits : Option ℕ → Bytes → Option ℕ
hex_digits acc [] = acc
hex_digits none (c ∷ cs) = elim (hex_digit c) [ none ↦ none | some d ↦ hex_digits (some d) cs ]
hex_digits (some v) (c ∷ cs) = elim (hex_digit c) [
  | none ↦ some v
  | some d ↦ hex_digits (some (v * 16 + d)) cs
]

-- A prefix "0x" or "0X" is read over; a lone one has no digits.
unfoldable pub after_sign : Bytes → Option ℕ
unfolding hex_digits
after_sign (z ∷ x ∷ cs) =
    if z == b'0' && (x == b'x' || x == b'X')
    then hex_digits none cs
    else hex_digits none (z ∷ x ∷ cs)
after_sign cs = hex_digits none cs

-- The `char` that `static_cast<char>(value)` makes, as a byte.
abbrev byte_of : Bool → ℕ → ℕ
byte_of true v = (256 - v % 256) % 256
byte_of false v = v % 256

abbrev signed : Bool → Option ℕ → Option ℕ
signed minus none = none
signed minus (some v) = some (byte_of minus v)

-- `is >> std::hex >> value` on a stream over the bytes, and the cast: white space is skipped, and a
-- sign may stand in front.
unfoldable pub read_hex : Bytes → Option ℕ
unfolding after_sign
read_hex [] = none
read_hex (c ∷ cs) =
    let rest = read_hex cs in
    if is_space c
    then rest
    else if c == b'-'
    then signed true (after_sign cs)
    else if c == b'+'
    then signed false (after_sign cs)
    else signed false (after_sign (c ∷ cs))

abbrev pub prepend : ℕ → Option Bytes → Option Bytes
prepend c none = none
prepend c (some out) = some (c ∷ out)

abbrev pub escaped : Option ℕ → Option Bytes → Option Bytes
escaped none out = none
escaped (some v) out = prepend v out

-- `none` is the result false.
unfoldable pub url_decode : Bytes → Option Bytes
url_decode [] = some []
url_decode (c ∷ []) =
    if c == b'%' then none else if c == b'+' then some (b' ' ∷ []) else some (c ∷ [])
url_decode (c ∷ a ∷ []) =
    let rest = url_decode (a ∷ []) in
    if c == b'%' then none else if c == b'+' then prepend b' ' rest else prepend c rest
url_decode (c ∷ a ∷ b ∷ cs) =
    let after = url_decode cs in
    let rest = url_decode (a ∷ b ∷ cs) in
    if c == b'%'
    then escaped (read_hex (a ∷ b ∷ [])) after
    else if c == b'+'
    then prepend b' ' rest
    else prepend c rest
