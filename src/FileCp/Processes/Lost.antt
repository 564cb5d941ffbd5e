-- ===== src/FileCp/Processes/Lost.antt =====
-- The bytes that the processes of file_cp/mult_process_cp.c do not copy.
use learning_cpp.Prelude.{
  ℕ, zero, suc, ◌+◌, ◌-◌, ◌*◌, ◌/◌, ◌%◌, ◌≤◌, ◌<◌, ltb, leb, ◌==◌, ◌≡◌, refl, ap, ◌∙◌, arith, Bool,
  true, false, ◌&&◌, ◌||◌, some, if◌then◌else◌, List, [], ◌∷◌, All, inl, inr, Bool-cases,
}
use native.Mathlib.Nat.{
  mul-le-mul_right, suc-mul, add-mul, one-mul, two-mul, zero-mul, mul-zero, mod-lt,
}
use native.Mathlib.Omega.{div_any}
use learning_cpp.FileCp.{copy_range}
use learning_cpp.FileCp.Processes.{
  process_count, block_size, mod_of, block, child, children, len_of, copy_file,
}

-- Whether process `i` copies byte `j`.
abbrev covers : ℕ → ℕ → ℕ → ℕ → ℕ → Bool
covers bs m n j i = let (off, size) = block bs m n i in leb off j && ltb j (off + size)

-- The bytes that no process copies: the first of the second block, if there are three processes or
-- more, and those behind the last block.
abbrev pub is_lost : ℕ → ℕ → ℕ → ℕ → Bool
is_lost bs m n j = (ltb 2 n && j == bs) || leb (n * bs + m) j

abbrev any_covers : ℕ → ℕ → ℕ → ℕ → List ℕ → Bool
any_covers bs m n j [] = false
any_covers bs m n j (i ∷ is) = covers bs m n j i || any_covers bs m n j is

module _ (s : ℕ → ℕ) (len n j : ℕ) where
  children_byte :
      (is : List ℕ) (d : ℕ → ℕ)
      → children s len n is d j
        ≡ (if any_covers (block_size len n) (mod_of len n) n j is then s j else d j)
  unfolding children child copy_range
  children_byte [] d = refl
  children_byte (i ∷ is) d = ground (arith, children_byte is (child s len n i d))

abbrev pub is_in : ℕ → List ℕ → Bool
is_in i [] = false
is_in i (k ∷ ks) = k == i || is_in i ks

abbrev pub all_in : ℕ → List ℕ → Bool
all_in zero order = true
all_in (suc n) order = is_in n order && all_in n order

all_in-is_in : (n i : ℕ) (order : List ℕ) → all_in n order ≡ true → i < n → is_in i order ≡ true
all_in-is_in zero i order h b = absurd (omega arith)
all_in-is_in (suc n) i order h b = elim (Bool-cases (i == n)) [
  | inl e ↦ let same : i ≡ n = ground arith in rw same (ground arith)
  | inr e ↦ all_in-is_in n i order (ground arith) (ground arith)
]

pred_mul : (n bs : ℕ) → 0 < n → (n - 1) * bs + bs ≡ n * bs
pred_mul zero bs h = absurd (omega arith)
pred_mul (suc n) bs h =
    let e : suc n - 1 ≡ n = omega arith in omega (arith, suc-mul n bs, ap (λ (k : ℕ). k * bs) e)

module _ (bs m n j : ℕ) (positive : 0 < bs) where
  mul_le : (a b : ℕ) → a ≤ b → a * bs ≤ b * bs
  mul_le a b h = mul-le-mul_right bs h

  covers-is_lost : (i : ℕ) → i < n → covers bs m n j i ≡ true → is_lost bs m n j ≡ false
  unfolding block
  covers-is_lost i h c = ground (
    arith,
    suc-mul i bs,
    mul_le (suc i) n,
    mul_le (i + 2) n,
    mul_le 1 i,
    mul_le 2 i,
    add-mul i 2 bs,
    one-mul bs,
    two-mul bs,
    mul_le 1 n,
  )

  -- A byte behind the first of the second block, in a block of the middle.
  in_middle :
      (k : ℕ)
      → bs < j
      → j < suc k * bs + 1
      → (i : ℕ) × (0 < i) × (i ≤ k) × (i * bs + 1 ≤ j) × (j < i * bs + 1 + bs)
  in_middle zero low high = absurd (omega (arith, one-mul bs))
  in_middle (suc k) low high = elim (Bool-cases (ltb j (suc k * bs + 1))) [
    | inl e ↦
        let (i, a, b, c, e') = in_middle k low (ground arith) in (i, a, omega (arith, b), c, e')
    | inr e ↦ (suc k, omega arith, omega arith, ground arith, ground (arith, suc-mul (suc k) bs))
  ]

  is_lost-covers : 0 < n → is_lost bs m n j ≡ false → (i : ℕ) × (i < n) × (covers bs m n j i ≡ true)
  unfolding block
  is_lost-covers some_process kept =
      let whole = pred_mul n bs some_process in
      elim (Bool-cases (leb ((n - 1) * bs) j)) [
        | inl e ↦ (n - 1, omega arith, ground (arith, whole))
        | inr e ↦
            let two : 2 ≤ n = ground (arith, mul_le (n - 1) 0, zero-mul bs) in
            elim (Bool-cases (ltb j bs)) [
              | inl f ↦ (0, omega (arith, two), ground (arith, two))
              | inr f ↦
                  let low : bs < j = ground (arith, mul_le (n - 1) 1, one-mul bs) in
                  let last : suc (n - 2) ≡ n - 1 = omega (arith, two) in
                  let high : j < suc (n - 2) * bs + 1 =
                    ground (arith, ap (λ (k : ℕ). k * bs) last) in
                  let (i, a, b, c, d) = in_middle (n - 2) low high in
                  (i, omega (arith, a, b), ground (arith, two, a, b, c, d))
            ]
      ]

any_covers-covers :
    (bs m n j i : ℕ) (is : List ℕ)
    → is_in i is ≡ true
    → covers bs m n j i ≡ true
    → any_covers bs m n j is ≡ true
any_covers-covers bs m n j i [] h c = cc
any_covers-covers bs m n j i (k ∷ is) h c = elim (Bool-cases (k == i)) [
  | inl e ↦ let same : k ≡ i = ground arith in rw (same, c) refl
  | inr e ↦ ground (arith, any_covers-covers bs m n j i is)
]

any_covers-is_lost :
    (bs m n j : ℕ) (is : List ℕ)
    → 0 < bs
    → All (λ i. i < n) is
    → is_lost bs m n j ≡ true
    → any_covers bs m n j is ≡ false
any_covers-is_lost bs m n j [] positive h lost = refl
any_covers-is_lost bs m n j (i ∷ is) positive h lost = elim (Bool-cases (covers bs m n j i)) [
  | inl c ↦ let kept = covers-is_lost bs m n j positive i h.0 c in cc (kept, lost)
  | inr c ↦ rw c (any_covers-is_lost bs m n j is positive h.1 lost)
]

block_size_positive : (len n : ℕ) → 0 < n → n ≤ len → 0 < block_size len n
block_size_positive len n h k = elim (Bool-cases (block_size len n == 0)) [
  | inl e ↦
      let none_each : len / n ≡ 0 = ground arith in
      let rest : n * 0 + len % n ≡ len = rw none_each at (div_any len n) in
      absurd (omega (arith, rest, mul-zero n, mod-lt len h))
  | inr e ↦ ground arith
]

-- The copy of a file by some processes that copy their blocks in any order, each at least once. `len`
-- is the file's size as an `int` keeps it, which is neither negative nor 0: for a file of less than two
-- gigabytes the size itself, for a larger one what is left of it. The copy ends, every byte that a
-- process covers is in the destination, and the others are zero or behind its end. These are, exactly,
-- the byte at `bs` with three processes or more, where the first block has ended and the second has
-- begun a byte late, and the bytes from `n * bs + len % bs` on, behind the last block, whose length is
-- computed by `len % bs` for `len % n`.
pub copy_file-is_lost :
    (s : ℕ → ℕ) (st_size n : ℕ) (order : List ℕ)
    → 0 < len_of st_size
    → len_of st_size < 2147483648
    → 0 < n
    → all_in (process_count (len_of st_size) n) order ≡ true
    → All (λ i. i < process_count (len_of st_size) n) order
    → let len = len_of st_size in
      let count = process_count len n in
      (d : ℕ → ℕ) × (copy_file s st_size n order ≡ some d)
      × ((j : ℕ)
          → d j ≡ (if is_lost (block_size len count) (mod_of len count) count j then 0 else s j))
unfolding copy_file
copy_file-is_lost s st_size n order some_bytes positive_int some_process every within =
    let len = len_of st_size in
    let count = process_count len n in
    let positive : 0 < count = ground arith in
    let fewer : count ≤ len = ground arith in
    let bs = block_size len count in
    let m = mod_of len count in
    let size = block_size_positive len count positive fewer in
    (
      children s len count order (λ j. 0),
      ground arith,
      λ j. children_byte s len count j order (λ k. 0) ∙ elim (Bool-cases (is_lost bs m count j)) [
        | inl lost ↦ rw (any_covers-is_lost bs m count j order size within lost, lost) refl
        | inr kept ↦
            let (i, below, c) = is_lost-covers bs m count j size positive kept in
            rw
              (
                any_covers-covers bs m count j i order (all_in-is_in count i order every below) c,
                kept,
              )
              refl
      ],
    )
