-- ===== src/Philosophers/Fifth.antt =====
-- What stops the fifth philosopher of philosopher_thread.c.
use learning_cpp.Prelude.{
  ℕ, zero, suc, ◌==◌, ◌≡◌, refl, sym, ap, ◌∙◌, arith, false, ◌⊎◌, inl, inr, some, Bool-cases, List,
  [], ◌∷◌, get_elem?, set,
}
use mathlib.Core.Path.{subst}
use learning_cpp.Philosophers.{Place, Table, Outcome, left, right_thread, turn_at, step, run, start}
use learning_cpp.Philosophers.Turns.{run-cons, step_at, at_step}

-- The fifth philosopher of philosopher_thread.c is before the first fork or before the second.
abbrev Unfed : List Place → Type 0
Unfed places = (get_elem? places 4 ≡ some Place.hungry) ⊎ (get_elem? places 4 ≡ some Place.trying)

set_other :
    (places : List Place) (i k : ℕ) (p : Place)
    → (i == k) ≡ false
    → get_elem? (set places i p) k ≡ get_elem? places k
set_other [] i k p h = refl
set_other (q ∷ places) zero zero p h = absurd (ground arith)
set_other (q ∷ places) zero (suc k) p h = refl
set_other (q ∷ places) (suc i) zero p h = refl
set_other (q ∷ places) (suc i) (suc k) p h = set_other places i k p (ground arith)

set_self :
    (places : List Place) (i : ℕ) (p q : Place)
    → get_elem? places i ≡ some q
    → get_elem? (set places i p) i ≡ some p
set_self [] i p q h = absurd (cc)
set_self (x ∷ places) zero p q h = refl
set_self (x ∷ places) (suc i) p q h = set_self places i p q h

turn_places :
    (t t' : Table) (i l r : ℕ) (p : Place)
    → turn_at t i l r p ≡ Outcome.goes t'
    → (p' : Place) × (t'.places ≡ set t.places i p') × ((p ≡ Place.hungry) → p' ≡ Place.trying)
unfolding turn_at
turn_places t t' i l r Place.hungry e = (Place.trying, ground arith, λ k. refl)
turn_places t t' i l r Place.trying e = elim (Bool-cases (t.fork r == 0)) [
  | inl f ↦ (Place.leaving, ground arith, λ k. absurd (cc))
  | inr f ↦ (Place.eating, ground arith, λ k. absurd (cc))
]
turn_places t t' i l r Place.eating e = (Place.leaving, ground arith, λ k. absurd (cc))
turn_places t t' i l r Place.leaving e = (Place.hungry, ground arith, λ k. absurd (cc))

last_faults : (t : Table) → turn_at t 4 (left 4) (right_thread 4) Place.trying ≡ Outcome.faults
unfolding turn_at
last_faults t = refl

Unfed-step :
    (t t' : Table) (i : ℕ)
    → Unfed t.places
    → step right_thread t i ≡ Outcome.goes t'
    → Unfed t'.places
Unfed-step t t' i h e =
    let (p, g, turned) = step_at right_thread t t' i e in
    let (p', same, next) = turn_places t t' i (left i) (right_thread i) p turned in
    elim (Bool-cases (i == 4)) [
      | inr other ↦ subst Unfed (sym same) (rw (set_other t.places i 4 p' other) h)
      | inl own ↦
          let four : i ≡ 4 = ground arith in
          let there : get_elem? t.places 4 ≡ some p = ap (get_elem? t.places) (sym four) ∙ g in
          elim h [
            | inl before ↦
                let first : p ≡ Place.hungry = ground arith in
                let taken : set t.places i p' ≡ set t.places 4 Place.trying =
                  ap (λ k. set t.places k p') four ∙ ap (set t.places 4) (next first) in
                inr (
                  ap (λ ps. get_elem? ps 4) (same ∙ taken)
                  ∙ set_self t.places 4 Place.trying p there)
            | inr before ↦
                let second : p ≡ Place.trying = ground arith in
                let fault : turn_at t i (left i) (right_thread i) p ≡ Outcome.faults =
                  ap (λ k. turn_at t k (left k) (right_thread k) p) four
                  ∙ ap (turn_at t 4 (left 4) (right_thread 4)) second
                  ∙ last_faults t in
                absurd (cc (fault, turned))
          ]
    ]

Unfed-run :
    (is : List ℕ) (t t' : Table)
    → Unfed t.places
    → run right_thread t is ≡ Outcome.goes t'
    → Unfed t'.places
unfolding run
Unfed-run [] t t' h e = let same : t ≡ t' = ground arith in subst (λ q. Unfed q.places) same h
Unfed-run (i ∷ is) t t' h e =
    let (mid, f, g) = run-cons right_thread t t' i is e in
    Unfed-run is mid t' (Unfed-step t mid i h f) g

-- The fifth philosopher of philosopher_thread.c never eats: under every schedule it is before its first
-- fork, or it has that one and its next turn is a fault, since its second fork is behind the array.
pub fifth_never_eats :
    (is : List ℕ) (t : Table)
    → run right_thread start is ≡ Outcome.goes t
    → (get_elem? t.places 4 ≡ some Place.hungry)
      ⊎ ((get_elem? t.places 4 ≡ some Place.trying) × (step right_thread t 4 ≡ Outcome.faults))
fifth_never_eats is t e = elim (Unfed-run is start t (inl refl) e) [
  | inl h ↦ inl h
  | inr h ↦ inr (h, at_step right_thread t 4 Place.trying _ h (last_faults t))
]
