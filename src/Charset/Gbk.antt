-- ===== src/Charset/Gbk.antt =====
-- `_isGBK_` of ad_system/common/encode_convert.cpp, with what is left of the text from position `i` on
-- for `i`. A `char` from 128 on is negative.
pub mod Pairs
use learning_cpp.Prelude.{
  ℕ, zero, suc, ◌+◌, ◌*◌, Bool, true, false, not, ◌&&◌, leb, ltb, ◌==◌, Option, none, some,
  if◌then◌else◌, List, [], ◌∷◌, Bytes, length,
}

-- The loop over the bytes that are not negative.
unfoldable pub skip_en : Bytes → Bytes
skip_en [] = []
skip_en (c ∷ str) = let rest = skip_en str in if ltb c 128 then rest else c ∷ str

-- The test of the first byte of a pair, which the source makes twice.
unfoldable pub is_gbk_byte : ℕ → Bool
is_gbk_byte chr = (leb 129 chr && leb chr 254) && ((leb 64 chr && leb chr 254) && not (chr == 127))

-- The loop over pairs; `none` is the return of false.
unfoldable pub skip_pairs : Bytes → Option Bytes
skip_pairs [] = some []
skip_pairs (c ∷ []) = some (c ∷ [])
skip_pairs (c ∷ d ∷ str) =
    let rest = skip_pairs str in
    if ltb c 128 then some (c ∷ d ∷ str) else if is_gbk_byte c then rest else none

-- The outer loop on fuel; `none` is a loop that has not ended.
unfoldable pub gbk_loop : ℕ → Bytes → Option Bool
gbk_loop zero str = none
gbk_loop (suc fuel) [] = some true
gbk_loop (suc fuel) (c ∷ str) =
    let left = skip_en (c ∷ str) in
    if length left == 1
    then some true
    else elim (skip_pairs left) [ none ↦ some false | some rest ↦ gbk_loop fuel rest ]

-- `_isGBK_`.
unfoldable pub is_gbk : Option Bytes → Option Bool
is_gbk none = some false
is_gbk (some str) = gbk_loop (length str + 1) str
