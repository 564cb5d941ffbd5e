-- ===== src/Philosophers/Meals.antt =====
-- The meals of philosopher哲学家就餐/philosopher_process.c, which go on.
use learning_cpp.Prelude.{
  ℕ, zero, suc, ◌+◌, ◌-◌, ◌<◌, ◌==◌, ◌≡◌, refl, ap, ◌∙◌, arith, Bool, true, false, inl, inr, some,
  Bool-cases, if◌then◌else◌, List, [], ◌∷◌, length, get_elem?, set,
}
use mathlib.Core.Path.{subst}
use learning_cpp.Philosophers.{Place, Table, Outcome, left, right, put, turn_at, step, run, start}
use learning_cpp.Philosophers.Forks.{holds, holders, holders-set, turn_changes}
use learning_cpp.Philosophers.Turns.{run-cons, step_at, at_step}

-- Each fork is on the table or held once, and there are five philosophers.
record IsLaid (t : Table) : Type 0 where
  once : (j : ℕ) → t.fork j + holders 0 j t.places ≡ 1
  five : length t.places ≡ 5

length-set : (places : List Place) (i : ℕ) (p : Place) → length (set places i p) ≡ length places
length-set [] i p = refl
length-set (q ∷ places) zero p = refl
length-set (q ∷ places) (suc i) p = ap suc (length-set places i p)

IsLaid-step : (t t' : Table) (i : ℕ) → IsLaid t → step right t i ≡ Outcome.goes t' → IsLaid t'
IsLaid-step t t' i h e =
    let (place, g, turned) = step_at right t t' i e in
    let (place', same, changes) = turn_changes t t' i place turned in
    record {
      once = λ j. omega (
        arith,
        h.once j,
        changes j,
        ap (holders 0 j) same,
        holders-set 0 i j t.places place place' g,
        ap (λ m. holds m j place) (from_zero i),
        ap (λ m. holds m j place') (from_zero i),
      );
      five = ap length same ∙ length-set t.places i place' ∙ h.five;
    }
  where
    from_zero : (i : ℕ) → 0 + i ≡ i
    from_zero i = omega arith

IsLaid-run : (is : List ℕ) (t t' : Table) → IsLaid t → run right t is ≡ Outcome.goes t' → IsLaid t'
unfolding run
IsLaid-run [] t t' h e = let same : t ≡ t' = ground arith in subst IsLaid same h
IsLaid-run (i ∷ is) t t' h e =
    let (mid, f, g) = run-cons right t t' i is e in IsLaid-run is mid t' (IsLaid-step t mid i h f) g

IsLaid-start : IsLaid start
unfolding holders
IsLaid-start = record { once = λ j. omega arith; five = refl }

abbrev is_hungry : Place → Bool
is_hungry Place.hungry = true
is_hungry p = false

abbrev all_hungry : List Place → Bool
all_hungry [] = true
all_hungry (p ∷ places) = if is_hungry p then all_hungry places else false

find_fed :
    (places : List Place)
    → all_hungry places ≡ false
    → (i : ℕ) × (p : Place) × (get_elem? places i ≡ some p)
      × (is_hungry p ≡ false)
      × (i < length places)
find_fed [] h = absurd (cc)
find_fed (p ∷ places) h = elim (Bool-cases (is_hungry p)) [
  | inl e ↦
      let (i, q, g, f, b) = find_fed places (ground arith) in (suc i, q, g, f, omega (arith, b))
  | inr e ↦ (0, p, refl, e, omega arith)
]

none_held : (i j : ℕ) (places : List Place) → all_hungry places ≡ true → holders i j places ≡ 0
unfolding holders
none_held i j [] h = refl
none_held i j (Place.hungry ∷ places) h = omega (arith, none_held (suc i) j places h)
none_held i j (Place.trying ∷ places) h = absurd (cc)
none_held i j (Place.eating ∷ places) h = absurd (cc)
none_held i j (Place.leaving ∷ places) h = absurd (cc)

first_hungry :
    (places : List Place)
    → length places ≡ 5
    → all_hungry places ≡ true
    → get_elem? places 0 ≡ some Place.hungry
first_hungry [] h k = absurd (omega arith)
first_hungry (Place.hungry ∷ places) h k = refl
first_hungry (Place.trying ∷ places) h k = absurd (cc)
first_hungry (Place.eating ∷ places) h k = absurd (cc)
first_hungry (Place.leaving ∷ places) h k = absurd (cc)

-- A philosopher with a fork is never kept waiting.
fed_moves :
    (t : Table) (i : ℕ) (p : Place)
    → i < 5
    → is_hungry p ≡ false
    → (t' : Table) × (turn_at t i (left i) (right i) p ≡ Outcome.goes t')
unfolding turn_at
fed_moves t i Place.hungry b h = absurd (cc)
fed_moves t i Place.trying b h =
    let right_lt : right i < 5 = ground arith in
    elim (Bool-cases (t.fork (right i) == 0)) [
      | inl e ↦ (
        record { fork = t.fork; places = set t.places i Place.leaving },
        ground (arith, right_lt),
      )
      | inr e ↦ (
        record {
          fork = put (right i) (t.fork (right i) - 1) t.fork;
          places = set t.places i Place.eating;
        },
        ground (arith, right_lt),
      )
    ]
fed_moves t i Place.eating b h = (_, refl)
fed_moves t i Place.leaving b h = (_, refl)

hungry_moves :
    (t : Table)
    → t.fork 0 ≡ 1
    → (t' : Table) × (turn_at t 0 (left 0) (right 0) Place.hungry ≡ Outcome.goes t')
unfolding turn_at
hungry_moves t h = (
  record { fork = put 0 (t.fork 0 - 1) t.fork; places = set t.places 0 Place.trying },
  ground arith,
)

-- The philosophers of philosopher_process.c under every schedule: each fork is on the table or held
-- exactly once, so that no two neighbours eat at a time, and some philosopher can make a turn.
pub forks_go_round :
    (is : List ℕ) (t : Table) (j : ℕ)
    → run right start is ≡ Outcome.goes t
    → (t.fork j + holders 0 j t.places ≡ 1)
      × ((i : ℕ) × (t' : Table) × (step right t i ≡ Outcome.goes t'))
forks_go_round is t j e =
    let h = IsLaid-run is start t IsLaid-start e in
    (
      h.once j,
      elim (Bool-cases (all_hungry t.places)) [
        | inl k ↦
            let free : t.fork 0 ≡ 1 = omega (arith, h.once 0, none_held 0 0 t.places k) in
            let (t', moved) = hungry_moves t free in
            (0, t', at_step right t 0 Place.hungry _ (first_hungry t.places h.five k) moved)
        | inr k ↦
            let (i, p, g, fed, b) = find_fed t.places k in
            let (t', moved) = fed_moves t i p (omega (arith, b, h.five)) fed in
            (i, t', at_step right t i p _ g moved)
      ],
    )
