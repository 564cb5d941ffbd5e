-- ===== src/Tests/SimplePool.antt =====
-- The threads of zl_threadpool/01_simple_threadPool/ with two workers.
use learning_cpp.Prelude.{ℕ, ◌*◌, ◌≤◌, ◌≡◌, refl, ℤ, arith, true, none, List, [], ◌∷◌, ◌⊎◌, length}
use learning_cpp.Pools.Simple.{Item, set_next, set_prev, ll_insert, ll_remove}
use learning_cpp.Pools.Simple.Links.{IsList}
use learning_cpp.Pools.Simple.Threads.{
  Owner, Pool, Turn, Outcome, Answer, region, work_at, push_at, destory_at, step, run, create_loop,
  create,
}
use learning_cpp.Pools.Simple.Threads.Jobs.{count, Once, stack_run, run-stack_run}
use learning_cpp.Pools.Simple.Threads.Wakeups.{no_lost_wakeup}
use learning_cpp.Pools.Simple.Threads.Ends.{all_freed, destory_ends}

program : Unit {0}
unfolding set_next set_prev ll_insert ll_remove region work_at push_at destory_at step run
    create_loop create
program = tt

abbrev memory : ℕ → Item
memory i = record { next = none; prev = none }

abbrev answers : ℕ → Answer
answers i = Answer.started

abbrev new_pool : Pool
new_pool = (create (ℤ.pos 2) answers memory).1

abbrev pool_of : Outcome → Pool
pool_of Outcome.blocks = new_pool
pool_of Outcome.faults = new_pool
pool_of (Outcome.goes p) = p

-- Two jobs are pushed before a worker takes one, which is the last.
abbrev turns : List Turn
turns = Turn.work 0 ∷ Turn.push_task 7 0 ∷ Turn.push_task 8 0 ∷ Turn.work 1 ∷ []

abbrev reached : Pool
reached = pool_of (run new_pool turns)

ran : run new_pool turns ≡ Outcome.goes reached
unfolding program
ran = refl

last_first : reached.taken ≡ 8 ∷ []
unfolding program
last_first = refl

two_jobs : Once turns []
unfolding count
two_jobs j = ground arith

run-stack_run_example :
    let s = stack_run new_pool turns (record { jobs = []; taken = [] }) in
    IsList reached.jobs s.jobs × (reached.taken ≡ s.taken)
run-stack_run_example = run-stack_run (ℤ.pos 2) answers memory turns reached two_jobs ran

still_idle : reached.owner ≡ Owner.idle
unfolding program
still_idle = refl

no_lost_wakeup_example :
    (reached.jobs.list ≡ none)
    ⊎ (reached.workers ≡ [])
    ⊎ ((i : ℕ) × (p : Pool) × (step reached (Turn.work i) ≡ Outcome.goes p))
no_lost_wakeup_example = no_lost_wakeup (ℤ.pos 2) answers memory turns reached ran still_idle

-- A worker that has freed itself before its pointer to the next is read.
destory_faults :
    run new_pool (Turn.destory ∷ Turn.destory_on ∷ Turn.work 0 ∷ Turn.destory_on ∷ [])
    ≡ Outcome.faults
unfolding program
destory_faults = refl

create_fails : (create (ℤ.negsuc 3) (λ i. Answer.no_thread) memory).0 ≡ ℤ.negsuc 2
unfolding program
create_fails = refl

-- The pool is destroyed while a worker waits.
abbrev to_end : List Turn
to_end =
    Turn.work 0
    ∷ Turn.destory
    ∷ Turn.destory_on
    ∷ Turn.destory_on
    ∷ Turn.destory_on
    ∷ Turn.destory_on
    ∷ Turn.destory_on
    ∷ []

abbrev ended : Pool
ended = pool_of (run new_pool to_end)

ran_to_end : run new_pool to_end ≡ Outcome.goes ended
unfolding program
ran_to_end = refl

is_destroyed : ended.owner ≡ Owner.destroyed
unfolding program
is_destroyed = refl

abbrev over : Pool
over = pool_of (run ended (Turn.work 1 ∷ []))

ran_on : run ended (Turn.work 1 ∷ []) ≡ Outcome.goes over
unfolding program
ran_on = refl

destory_ends_example :
    (1 ≤ 2 * length ended.workers)
    × ((all_freed over.workers ≡ true)
        ⊎ ((i : ℕ) × (p : Pool) × (step over (Turn.work i) ≡ Outcome.goes p)))
destory_ends_example =
    destory_ends (ℤ.pos 2) answers memory to_end (Turn.work 1 ∷ []) ended over ran_to_end
      is_destroyed ran_on
