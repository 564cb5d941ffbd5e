-- ===== src/Philosophers.antt =====
-- philosopher哲学家就餐/: five philosophers who take their forks by a wait and a try. The mutexes of
-- philosopher_thread.c and the semaphores of philosopher_process.c are counters; the programs differ in
-- the fork at the right, which is a parameter. A turn is one call.
pub mod Forks
pub mod Turns
pub mod Meals
pub mod Fifth
use learning_cpp.Prelude.{
  ℕ, zero, suc, ◌+◌, ◌-◌, ltb, ◌==◌, Option, none, some, if◌then◌else◌, List, [], ◌∷◌, get_elem?,
  set,
}

-- Before the wait, before the try, with both forks, and with the left one after the meal or the try.
pub data Place : Type 0 where
  hungry trying eating leaving : Place

pub record Table : Type 0 where
  pub fork : ℕ → ℕ
  pub places : List Place

-- A philosopher that waits, an access behind the array, or the table after the turn.
pub data Outcome : Type 0 where
  blocks faults : Outcome
  goes : Table → Outcome

abbrev pub left : ℕ → ℕ
left i = if i == 4 then 0 else i

-- `r` in philosopher_process.c.
abbrev pub right : ℕ → ℕ
right i = if i == 4 then 4 else i + 1

-- `r` in philosopher_thread.c, where `r = i+1` stands behind the `else` and is always done.
abbrev pub right_thread : ℕ → ℕ
right_thread i = i + 1

unfoldable pub put : ℕ → ℕ → (ℕ → ℕ) → ℕ → ℕ
put j v m k = if k == j then v else m k

abbrev pub move : Table → ℕ → Place → (ℕ → ℕ) → Outcome
move t i place fork = Outcome.goes (record { fork = fork; places = set t.places i place })

-- A turn of the loop's philosopher `i`, with the forks `l` and `r`.
unfoldable pub turn_at : Table → ℕ → ℕ → ℕ → Place → Outcome
turn_at t i l r Place.hungry =
    if t.fork l == 0 then Outcome.blocks else move t i Place.trying (put l (t.fork l - 1) t.fork)
turn_at t i l r Place.trying =
    if ltb r 5
    then if t.fork r == 0
      then move t i Place.leaving t.fork
      else move t i Place.eating (put r (t.fork r - 1) t.fork)
    else Outcome.faults
turn_at t i l r Place.eating = move t i Place.leaving (put r (t.fork r + 1) t.fork)
turn_at t i l r Place.leaving = move t i Place.hungry (put l (t.fork l + 1) t.fork)

unfoldable pub step : (ℕ → ℕ) → Table → ℕ → Outcome
step r t i = elim (get_elem? t.places i) [
  | none ↦ Outcome.blocks
  | some place ↦ turn_at t i (left i) (r i) place
]

-- A schedule, of which every turn must be one that moves.
unfoldable pub run : (ℕ → ℕ) → Table → List ℕ → Outcome
run r t [] = Outcome.goes t
run r t (i ∷ is) = elim (step r t i) [
  | blocks ↦ Outcome.blocks
  | faults ↦ Outcome.faults
  | Outcome.goes t' ↦ run r t' is
]

-- Five philosophers and their forks, each a counter of one.
abbrev pub start : Table
start = record {
  fork = λ j. 1;
  places = Place.hungry ∷ Place.hungry ∷ Place.hungry ∷ Place.hungry ∷ Place.hungry ∷ [];
}
