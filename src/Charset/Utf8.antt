-- ===== src/Charset/Utf8.antt =====
-- `_isUTF8_` of ad_system/common/encode_convert.cpp.
pub mod Sequences
use learning_cpp.Prelude.{
  ℕ, ◌+◌, ◌-◌, ◌*◌, ◌/◌, Bool, true, false, not, ◌&&◌, leb, ◌==◌, Option, none, some, if◌then◌else◌,
  List, [], ◌∷◌, Bytes,
}

-- `nBytes` for a first byte from 0x80 on; `none` is the return of false.
unfoldable pub n_bytes : ℕ → Option ℕ
n_bytes chr =
    if leb 0xfc chr && leb chr 0xfd
    then some 6
    else if leb 0xf8 chr
    then some 5
    else if leb 0xf0 chr
    then some 4
    else if leb 0xe0 chr
    then some 3
    else if leb 0xc0 chr
    then some 2
    else none

-- `(chr & 0xC0) == 0x80` on a byte: its two upper bits.
unfoldable pub is_trail : ℕ → Bool
is_trail chr = chr / 64 * 64 == 0x80

-- A turn of the loop: the new `nBytes`, or `none` for the return of false.
unfoldable pub advance : ℕ → ℕ → Option ℕ
advance n chr =
    if n == 0 && leb 0x80 chr
    then elim (n_bytes chr) [ none ↦ none | some k ↦ some (k - 1) ]
    else if not (n == 0)
    then if is_trail chr then some (n - 1) else none
    else some n

unfoldable pub scan : ℕ → Bytes → Bool
scan n [] = n == 0
scan n (chr ∷ str) = elim (advance n chr) [ none ↦ false | some m ↦ scan m str ]

-- `_isUTF8_`: `none` is a null pointer, and a text has the bytes before its NUL.
unfoldable pub is_utf8 : Option Bytes → Bool
is_utf8 none = false
is_utf8 (some str) = scan 0 str
