-- ===== src/Tests/Charset.antt =====
-- ad_system/common/encode_convert.cpp on short texts.
use learning_cpp.Prelude.{
  ◌≡◌, ◌≢◌, ◌↔◌, refl, arith, true, false, Option, some, ℕ, List, [], ◌∷◌, Bytes, All,
}
use learning_cpp.Charset.Utf8.{n_bytes, is_trail, advance, scan, is_utf8}
use learning_cpp.Charset.Utf8.Sequences.{Sequence, IsSequence, text, is_utf8_iff}
use learning_cpp.Charset.Gbk.{skip_en, is_gbk_byte, skip_pairs, gbk_loop, is_gbk}
use learning_cpp.Charset.Convert.{
  Conversion, conv_buff_len, convert_core, filling, filling-KeepsRoom, convert_core_in_bounds,
}

-- The sign for "middle" in UTF-8, between two letters.
abbrev middle : Bytes
middle = 97 ∷ 0xe4 ∷ 0xb8 ∷ 0xad ∷ 98 ∷ []

middle-is_utf8 : is_utf8 (some middle) ≡ true
unfolding is_utf8 scan advance n_bytes is_trail
middle-is_utf8 = refl

cut_is_not : is_utf8 (some (97 ∷ 0xe4 ∷ 0xb8 ∷ [])) ≡ false
unfolding is_utf8 scan advance n_bytes is_trail
cut_is_not = refl

-- It also passes for GBK.
middle-is_gbk : is_gbk (some middle) ≡ some true
unfolding is_gbk gbk_loop skip_en skip_pairs is_gbk_byte
middle-is_gbk = refl

is_utf8_iff_example :
    (is_utf8 (some middle) ≡ true)
    ↔ ((qs : List Sequence) × ((middle ≡ text qs) × All IsSequence qs))
is_utf8_iff_example = is_utf8_iff middle

-- An `iconv` that copies its bytes writes the NUL, too; one that leaves it out ends the output nowhere.
abbrev copying : Bytes → ℕ → Option Bytes
copying bytes room = some bytes

abbrev no_nul : Bytes → ℕ → Option Bytes
no_nul bytes room = some (97 ∷ [])

middle-copied :
    (convert_core true copying middle ≡ Conversion.converted middle)
    × (convert_core true no_nul middle ≡ Conversion.unterminated)
unfolding convert_core conv_buff_len
middle-copied = (refl, refl)

convert_core_in_bounds_example : convert_core true filling middle ≢ Conversion.overflows
convert_core_in_bounds_example =
    convert_core_in_bounds filling middle filling-KeepsRoom (omega arith)
