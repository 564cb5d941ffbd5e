-- ===== src/Tests/Philosophers.antt =====
-- Meals of philosopher哲学家就餐/.
use learning_cpp.Prelude.{ℕ, ◌+◌, ◌≡◌, refl, ◌⊎◌, some, List, [], ◌∷◌, get_elem?}
use learning_cpp.Philosophers.{
  Place, Table, Outcome, right, right_thread, put, turn_at, step, run, start,
}
use learning_cpp.Philosophers.Forks.{holders}
use learning_cpp.Philosophers.Meals.{forks_go_round}
use learning_cpp.Philosophers.Fifth.{fifth_never_eats}

program : Unit {0}
unfolding put turn_at step run
program = tt

-- The first philosopher eats while the second waits for its try, and the last waits.
abbrev turns : List ℕ
turns = 0 ∷ 2 ∷ 0 ∷ []

abbrev table_of : Outcome → Table
table_of Outcome.blocks = start
table_of Outcome.faults = start
table_of (Outcome.goes t) = t

abbrev reached : Table
reached = table_of (run right start turns)

ran : run right start turns ≡ Outcome.goes reached
unfolding program
ran = refl

at_table :
    reached.places ≡ Place.eating ∷ Place.hungry ∷ Place.trying ∷ Place.hungry ∷ Place.hungry ∷ []
unfolding program
at_table = refl

forks_go_round_example :
    (reached.fork 1 + holders 0 1 reached.places ≡ 1)
    × ((i : ℕ) × (t : Table) × (step right reached i ≡ Outcome.goes t))
forks_go_round_example = forks_go_round turns reached 1 ran

abbrev fifth : Table
fifth = table_of (run right_thread start (4 ∷ []))

ran_fifth : run right_thread start (4 ∷ []) ≡ Outcome.goes fifth
unfolding program
ran_fifth = refl

fifth_never_eats_example :
    (get_elem? fifth.places 4 ≡ some Place.hungry)
    ⊎ ((get_elem? fifth.places 4 ≡ some Place.trying)
        × (step right_thread fifth 4 ≡ Outcome.faults))
fifth_never_eats_example = fifth_never_eats (4 ∷ []) fifth ran_fifth
