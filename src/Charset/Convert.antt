-- ===== src/Charset/Convert.antt =====
-- `ConvertCore` of ad_system/common/encode_convert.cpp. `iconv` is a parameter: what it writes for the
-- bytes and the room that it is given, or `none` if it fails.
use mathlib.Core.Option as Option
use learning_cpp.Prelude.{
  ℕ, suc, ◌+◌, ◌*◌, ◌≤◌, ◌<◌, ◌≡◌, ◌≢◌, refl, ap, arith, Bool, true, ltb, leb, ◌==◌, Option, none,
  some, if◌then◌else◌, [], ◌∷◌, ◌++◌, Bytes, length, Option-cases, inl, inr,
}

-- The result false, the output, a write behind the end of `convBuff`, or, where `iconv` has written no
-- NUL, a copy that reads on in bytes of `convBuff` that were never written, or behind its end.
pub data Conversion : Type 0 where
  fails overflows unterminated : Conversion
  converted : Bytes → Conversion

unfoldable pub conv_buff_len : Bytes → ℕ
conv_buff_len input = if ltb 1024 (length input * 2) then length input * 2 else 1024

-- `outLen`.
abbrev pub out_len : Bytes → ℕ
out_len input = (length input + 1) * 2

-- `output = convBuff`: the bytes before the first NUL; `none` if none of them is one.
abbrev pub until_nul : Bytes → Option Bytes
until_nul [] = none
until_nul (c ∷ cs) =
    let rest = until_nul cs in if c == 0 then some [] else Option.map (λ cs'. c ∷ cs') rest

abbrev copied_out : Option Bytes → Conversion
copied_out none = Conversion.unterminated
copied_out (some output) = Conversion.converted output

abbrev pub written : ℕ → Option Bytes → Conversion
written room none = Conversion.fails
written room (some out) =
    if leb (length out) room then copied_out (until_nul out) else Conversion.overflows

-- `ConvertCore`, with what `iconv_open` says and `iconv`.
unfoldable pub convert_core : Bool → (Bytes → ℕ → Option Bytes) → Bytes → Conversion
convert_core opens iconv input =
    if opens
    then written (conv_buff_len input) (iconv (input ++ 0 ∷ []) (out_len input))
    else Conversion.fails

-- `iconv` writes no more than the room that it is told of.
abbrev pub KeepsRoom : (Bytes → ℕ → Option Bytes) → Type 0
KeepsRoom iconv =
    (bytes : Bytes) (room : ℕ) (out : Bytes) → iconv bytes room ≡ some out → length out ≤ room

abbrev pub zeros : ℕ → Bytes
zeros ℕ.zero = []
zeros (suc n) = 0 ∷ zeros n

pub length-zeros : (n : ℕ) → length (zeros n) ≡ n
length-zeros ℕ.zero = refl
length-zeros (suc n) = ap suc (length-zeros n)

-- A conversion that fills the room it is told of.
abbrev pub filling : Bytes → ℕ → Option Bytes
filling bytes room = some (zeros room)

pub filling-KeepsRoom : KeepsRoom filling
filling-KeepsRoom bytes room out e = ground (arith, length-zeros room)

short_fits : (input : Bytes) → length input < 512 → out_len input ≤ conv_buff_len input
unfolding conv_buff_len
short_fits input h = ground arith

long_overflows : (input : Bytes) → 512 ≤ length input → conv_buff_len input < out_len input
unfolding conv_buff_len
long_overflows input h = ground arith

copied_out_lem : (o : Option Bytes) → copied_out o ≢ Conversion.overflows
copied_out_lem none e = cc
copied_out_lem (some output) e = cc

-- For an input of less than 512 bytes, nothing is written behind the end of `convBuff`, by any `iconv`
-- that keeps to the room it is told of.
pub convert_core_in_bounds :
    (iconv : Bytes → ℕ → Option Bytes) (input : Bytes)
    → KeepsRoom iconv
    → length input < 512
    → convert_core true iconv input ≢ Conversion.overflows
unfolding convert_core
convert_core_in_bounds iconv input keeps h e =
    elim (Option-cases (iconv (input ++ 0 ∷ []) (out_len input))) [
      | inl f ↦ ground arith
      | inr (out, f) ↦ ground (
        arith,
        short_fits input h,
        keeps (input ++ 0 ∷ []) (out_len input) out f,
        copied_out_lem (until_nul out),
      )
    ]

-- For every input of 512 bytes or more, an `iconv` that fills the room it is told of, and no more,
-- writes behind the end of `convBuff`.
pub convert_core_overflows :
    (input : Bytes) → 512 ≤ length input → convert_core true filling input ≡ Conversion.overflows
unfolding convert_core
convert_core_overflows input h =
    ground (arith, long_overflows input h, length-zeros (out_len input))
