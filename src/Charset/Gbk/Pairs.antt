-- ===== src/Charset/Gbk/Pairs.antt =====
-- `_isGBK_` against a reader of single bytes and pairs.
use learning_cpp.Prelude.{
  ℕ, zero, suc, ◌+◌, ◌≤◌, ◌<◌, ◌≡◌, refl, arith, Bool, true, false, not, ◌&&◌, leb, ltb, ◌==◌,
  Option, none, some, if◌then◌else◌, [], ◌∷◌, Bytes, length, Bool-cases, Option-cases, inl, inr,
}
use learning_cpp.Charset.Gbk.{skip_en, is_gbk_byte, skip_pairs, gbk_loop, is_gbk}

-- A byte below 128 stands alone, one from 129 to 254 takes any byte with it, and a last byte may be
-- anything.
unfoldable pub reads : Bytes → Bool
reads [] = true
reads (c ∷ []) = true
reads (c ∷ d ∷ str) =
    let one = reads (d ∷ str) in
    let two = reads str in if ltb c 128 then one else (leb 129 c && leb c 254) && two

reads-skip_en : (str : Bytes) → reads (skip_en str) ≡ reads str
unfolding reads skip_en
reads-skip_en [] = refl
reads-skip_en (c ∷ []) = ground arith
reads-skip_en (c ∷ d ∷ str) = ground (arith, reads-skip_en (d ∷ str))

abbrev reads_rest : Option Bytes → Bool
reads_rest none = false
reads_rest (some str) = reads str

reads-skip_pairs : (str : Bytes) → reads_rest (skip_pairs str) ≡ reads str
unfolding reads skip_pairs is_gbk_byte
reads-skip_pairs [] = refl
reads-skip_pairs (c ∷ []) = refl
reads-skip_pairs (c ∷ d ∷ str) = ground (arith, reads-skip_pairs str)

-- A first byte that is not below 128.
abbrev starts_high : Bytes → Bool
starts_high [] = true
starts_high (c ∷ str) = not (ltb c 128)

starts_high-skip_en : (str : Bytes) → starts_high (skip_en str) ≡ true
unfolding skip_en
starts_high-skip_en [] = refl
starts_high-skip_en (c ∷ str) = ground (arith, starts_high-skip_en str)

length-skip_en : (str : Bytes) → length (skip_en str) ≤ length str
unfolding skip_en
length-skip_en [] = omega arith
length-skip_en (c ∷ str) = ground (arith, length-skip_en str)

length-skip_pairs : (str rest : Bytes) → skip_pairs str ≡ some rest → length rest ≤ length str
unfolding skip_pairs
length-skip_pairs [] rest e = ground arith
length-skip_pairs (c ∷ []) rest e = ground arith
length-skip_pairs (c ∷ d ∷ str) rest e = ground (arith, length-skip_pairs str rest)

-- A pair at least is read where there are two bytes.
shorter :
    (str rest : Bytes)
    → starts_high str ≡ true
    → (length str == 1) ≡ false
    → 0 < length str
    → skip_pairs str ≡ some rest
    → length rest < length str
unfolding skip_pairs
shorter [] rest s l n e = absurd (omega arith)
shorter (c ∷ []) rest s l n e = absurd (ground arith)
shorter (c ∷ d ∷ str) rest s l n e = ground (arith, length-skip_pairs str rest)

reads_one : (str : Bytes) → length str ≡ 1 → reads str ≡ true
unfolding reads
reads_one [] e = refl
reads_one (c ∷ []) e = refl
reads_one (c ∷ d ∷ str) e = absurd (omega arith)

loop_reads : (fuel : ℕ) (str : Bytes) → length str < fuel → gbk_loop fuel str ≡ some (reads str)
unfolding gbk_loop
loop_reads zero str h = absurd (omega arith)
loop_reads (suc fuel) [] h = unfold reads in refl
loop_reads (suc fuel) (c ∷ str) h =
    let left = skip_en (c ∷ str) in
    elim (Bool-cases (length left == 1)) [
      | inl one ↦ ground (arith, one, reads_one left, reads-skip_en (c ∷ str))
      | inr more ↦ elim (Option-cases (skip_pairs left)) [
        | inl e ↦ ground (arith, more, e, reads-skip_en (c ∷ str), reads-skip_pairs left)
        | inr (rest, e) ↦
            let below : length rest < fuel = ground (
              arith,
              length-skip_pairs left rest e,
              length-skip_en (c ∷ str),
              shorter left rest (starts_high-skip_en (c ∷ str)) more,
            ) in
            ground (
              arith,
              more,
              e,
              reads-skip_en (c ∷ str),
              reads-skip_pairs left,
              loop_reads fuel rest below,
            )
      ]
    ]

-- `_isGBK_` ends on every text, and accepts what is read as single bytes and pairs: a byte below 128
-- stands alone, a byte from 129 to 254 takes the next byte with it whatever that is, and a last byte
-- may be anything.
pub is_gbk-reads : (str : Bytes) → is_gbk (some str) ≡ some (reads str)
unfolding is_gbk
is_gbk-reads str = loop_reads (length str + 1) str (omega arith)
