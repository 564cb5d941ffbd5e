-- ===== src/Prelude/Runs.antt =====
-- How many elements of a list have a key, and where they stand when the list is ordered by its keys.
-- It models no code of the repository.
use Prim.Native.Nat.{ℕ, suc, ◌+◌, ◌≤◌}
use mathlib.Core.Path.{◌≡◌, refl}
use mathlib.Core.Bool.{Bool, true, false}
use mathlib.Core.List.{List, [], ◌∷◌}
use native.Mathlib.Omega.{arith}
use learning_cpp.Prelude.Lists.{All, take, drop, length, select}
use learning_cpp.Prelude.Int.{ℤ, ◌≤ℤ◌, ◌<ℤ◌, ltb_ℤ, ◌==ℤ◌}

module _ {A : Type 0} (key : A → ℤ) where
  abbrev pub is_at : ℤ → A → Bool
  is_at k x = key x ==ℤ k

  unfoldable pub count_at : ℤ → List A → ℕ
  count_at k [] = 0
  count_at k (x ∷ xs) = elim (key x ==ℤ k) [ true ↦ suc (count_at k xs) | false ↦ count_at k xs ]

  unfoldable pub count_below : ℤ → List A → ℕ
  count_below k [] = 0
  count_below k (x ∷ xs) = elim (ltb_ℤ (key x) k) [
    | true ↦ suc (count_below k xs)
    | false ↦ count_below k xs
  ]

  abbrev pub ByKey : List A → Type 0
  ByKey [] = Unit
  ByKey (x ∷ xs) = All (λ y. key x ≤ℤ key y) xs × ByKey xs

  module _ (p k : ℤ) where
    pub count_below_of_le : (l : List A) → All (λ y. p ≤ℤ key y) l → k ≤ℤ p → count_below k l ≡ 0
    unfolding count_below
    count_below_of_le [] h e = refl
    count_below_of_le (x ∷ l) h e = ground (arith, count_below_of_le l)

    pub count_at_of_lt : (l : List A) → All (λ y. p ≤ℤ key y) l → k <ℤ p → count_at k l ≡ 0
    unfolding count_at
    count_at_of_lt [] h e = refl
    count_at_of_lt (x ∷ l) h e = ground (arith, count_at_of_lt l)

    select_of_lt : (l : List A) → All (λ y. p ≤ℤ key y) l → k <ℤ p → select (is_at k) l ≡ []
    select_of_lt [] h e = refl
    select_of_lt (x ∷ l) h e = ground (arith, select_of_lt l)

  -- The elements of a key stand together.
  pub slice-select :
      (k : ℤ) (l : List A)
      → ByKey l
      → take (count_at k l) (drop (count_below k l) l) ≡ select (is_at k) l
  unfolding count_at count_below
  slice-select k [] h = refl
  slice-select k (x ∷ l) h = ground (
    arith,
    count_below_of_le (key x) k l h.0,
    count_at_of_lt (key x) k l h.0,
    select_of_lt (key x) k l h.0,
    slice-select k l h.1,
  )

  pub count-le-length : (k : ℤ) (l : List A) → count_below k l + count_at k l ≤ length l
  unfolding count_at count_below
  count-le-length k [] = omega arith
  count-le-length k (x ∷ l) = ground (arith, count-le-length k l)

  pub count-select : (k : ℤ) (l : List A) → count_at k l ≡ length (select (is_at k) l)
  unfolding count_at
  count-select k [] = refl
  count-select k (x ∷ l) = ground (arith, count-select k l)
