-- ===== src/Philosophers/Forks.antt =====
-- Who holds the forks of philosopher哲学家就餐/.
use learning_cpp.Prelude.{
  ℕ, zero, suc, ◌+◌, ◌-◌, ◌==◌, ◌≡◌, ap, arith, false, inl, inr, some, Bool-cases, if◌then◌else◌,
  List, [], ◌∷◌, get_elem?, set,
}
use learning_cpp.Philosophers.{Place, Table, Outcome, left, right, put, turn_at}

abbrev one_if : ℕ → ℕ → ℕ
one_if a b = if a == b then 1 else 0

-- How often philosopher `i` holds fork `j`.
abbrev pub holds : ℕ → ℕ → Place → ℕ
holds i j Place.hungry = 0
holds i j Place.trying = one_if (left i) j
holds i j Place.eating = one_if (left i) j + one_if (right i) j
holds i j Place.leaving = one_if (left i) j

-- How often the philosophers from `i` on do.
unfoldable pub holders : ℕ → ℕ → List Place → ℕ
holders i j [] = 0
holders i j (place ∷ places) = holds i j place + holders (suc i) j places

pub holders-set :
    (k i j : ℕ) (places : List Place) (place place' : Place)
    → get_elem? places i ≡ some place
    → holders k j (set places i place') + holds (k + i) j place
      ≡ holders k j places + holds (k + i) j place'
unfolding holders
holders-set k i j [] place place' e = absurd (cc)
holders-set k zero j (p ∷ places) place place' e =
    let here : k + 0 ≡ k = omega arith in
    let same : p ≡ place = ground arith in
    omega
      (arith, ap (λ m. holds m j place) here, ap (λ m. holds m j place') here, ap (holds k j) same)
holders-set k (suc i) j (p ∷ places) place place' e =
    let there : suc k + i ≡ k + suc i = omega arith in
    omega (
      arith,
      holders-set (suc k) i j places place place' e,
      ap (λ m. holds m j place) there,
      ap (λ m. holds m j place') there,
    )

took : (l j : ℕ) (m : ℕ → ℕ) → (m l == 0) ≡ false → put l (m l - 1) m j + one_if l j ≡ m j
unfolding put
took l j m h = elim (Bool-cases (j == l)) [
  | inl e ↦ let same : j ≡ l = ground arith in rw (same) (ground arith)
  | inr e ↦ ground arith
]

gave : (l j : ℕ) (m : ℕ → ℕ) → put l (m l + 1) m j ≡ m j + one_if l j
unfolding put
gave l j m = elim (Bool-cases (j == l)) [
  | inl e ↦ let same : j ≡ l = ground arith in rw (same) (ground arith)
  | inr e ↦ ground arith
]

-- What a turn changes of a fork is what it changes of what its philosopher holds.
pub turn_changes :
    (t t' : Table) (i : ℕ) (place : Place)
    → turn_at t i (left i) (right i) place ≡ Outcome.goes t'
    → (place' : Place) × (t'.places ≡ set t.places i place')
      × ((j : ℕ) → t'.fork j + holds i j place' ≡ t.fork j + holds i j place)
unfolding turn_at
turn_changes t t' i Place.hungry e = elim (Bool-cases (t.fork (left i) == 0)) [
  | inl f ↦ absurd (ground arith)
  | inr f ↦
      let same : t'.fork ≡ put (left i) (t.fork (left i) - 1) t.fork = ground arith in
      (Place.trying, ground arith, λ j. omega (arith, ap (λ m. m j) same, took (left i) j t.fork f))
]
turn_changes t t' i Place.trying e = elim (Bool-cases (t.fork (right i) == 0)) [
  | inl f ↦
      let same : t'.fork ≡ t.fork = ground arith in
      (Place.leaving, ground arith, λ j. omega (arith, ap (λ m. m j) same))
  | inr f ↦
      let same : t'.fork ≡ put (right i) (t.fork (right i) - 1) t.fork = ground arith in
      (
        Place.eating,
        ground arith,
        λ j. omega (arith, ap (λ m. m j) same, took (right i) j t.fork f),
      )
]
turn_changes t t' i Place.eating e =
    let same : t'.fork ≡ put (right i) (t.fork (right i) + 1) t.fork = ground arith in
    (Place.leaving, ground arith, λ j. omega (arith, ap (λ m. m j) same, gave (right i) j t.fork))
turn_changes t t' i Place.leaving e =
    let same : t'.fork ≡ put (left i) (t.fork (left i) + 1) t.fork = ground arith in
    (Place.hungry, ground arith, λ j. omega (arith, ap (λ m. m j) same, gave (left i) j t.fork))
