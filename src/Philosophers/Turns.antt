-- ===== src/Philosophers/Turns.antt =====
-- Turns and schedules of philosopher哲学家就餐/.
use learning_cpp.Prelude.{
  ℕ, ◌≡◌, refl, arith, ◌⊎◌, inl, inr, some, Option-cases, List, ◌∷◌, get_elem?,
}
use learning_cpp.Philosophers.{Place, Table, Outcome, left, turn_at, step, run}

Outcome-cases :
    (o : Outcome)
    → (o ≡ Outcome.blocks) ⊎ (o ≡ Outcome.faults) ⊎ ((t : Table) × (o ≡ Outcome.goes t))
Outcome-cases Outcome.blocks = inl refl
Outcome-cases Outcome.faults = inr (inl refl)
Outcome-cases (Outcome.goes t) = inr (inr (t, refl))

pub run-cons :
    (r : ℕ → ℕ) (t t' : Table) (i : ℕ) (is : List ℕ)
    → run r t (i ∷ is) ≡ Outcome.goes t'
    → (mid : Table) × (step r t i ≡ Outcome.goes mid) × (run r mid is ≡ Outcome.goes t')
unfolding run
run-cons r t t' i is e = elim (Outcome-cases (step r t i)) [
  | inl f ↦ absurd (ground arith)
  | inr (inl f) ↦ absurd (ground arith)
  | inr (inr (mid, f)) ↦ (mid, f, ground arith)
]

-- A turn is that of a philosopher at the table.
pub step_at :
    (r : ℕ → ℕ) (t t' : Table) (i : ℕ)
    → step r t i ≡ Outcome.goes t'
    → (place : Place) × (get_elem? t.places i ≡ some place)
      × (turn_at t i (left i) (r i) place ≡ Outcome.goes t')
unfolding step
step_at r t t' i e = elim (Option-cases (get_elem? t.places i)) [
  | inl f ↦ absurd (ground arith)
  | inr (place, f) ↦ (place, f, ground arith)
]

pub at_step :
    (r : ℕ → ℕ) (t : Table) (i : ℕ) (place : Place) (o : Outcome)
    → get_elem? t.places i ≡ some place
    → turn_at t i (left i) (r i) place ≡ o
    → step r t i ≡ o
unfolding step
at_step r t i place o g e = rw (step, g) e
