-- ===== src/Tests/Pools.antt =====
-- zl_threadpool/ with few threads.
use learning_cpp.Prelude.{
  ◌+◌, ◌*◌, ◌≤◌, ◌≡◌, refl, arith, true, false, none, some, List, [], ◌∷◌, ◌++◌, ◌⊎◌, length,
}
use learning_cpp.Pools.Cpp03.{
  Worker, Owner, Pool, Turn, check, work_at, add_at, signal_at, stop_at, broadcast_at, wake_at,
  join_at, step, run, create,
}
use learning_cpp.Pools.Cpp03.Order.{tasks_of, tasks_in_order}
use learning_cpp.Pools.Cpp03.Stop.{missed, hung, stop_hangs}
use learning_cpp.Pools.Cpp03.Return.{CanMove, stop_returns}
use learning_cpp.Pools.Simple.{Items, set_next, set_prev, ll_insert}
use learning_cpp.Pools.Simple.Links.{IsList}

-- A worker takes a task while another waits for the mutex, and the pool is stopped during the task.
abbrev turns : List Turn
turns =
    Turn.add_task 7
    ∷ Turn.signal 0
    ∷ Turn.add_task 8
    ∷ Turn.signal 0
    ∷ Turn.work 0
    ∷ Turn.work 1
    ∷ Turn.work 0
    ∷ Turn.work 0
    ∷ Turn.stop
    ∷ Turn.broadcast
    ∷ []

abbrev reached : Pool
reached = record {
  is_running = false;
  task_queue = 8 ∷ [];
  mutex = false;
  workers = Worker.running 7 ∷ Worker.locking ∷ [];
  owner = Owner.joining;
  taken = 7 ∷ [];
}

ran : run (create 2) turns ≡ some reached
unfolding run step check work_at add_at signal_at stop_at broadcast_at
ran = refl

abbrev to_end : List Turn
to_end = Turn.work 0 ∷ Turn.work 1 ∷ Turn.work 0 ∷ Turn.work 1 ∷ Turn.join ∷ []

abbrev over : Pool
over = record reached { workers = Worker.exited ∷ Worker.exited ∷ []; owner = Owner.stopped }

ran_on : run reached to_end ≡ some over
unfolding run step check work_at join_at
ran_on = refl

tasks_in_order_example : reached.taken ++ reached.task_queue ≡ tasks_of turns
tasks_in_order_example = tasks_in_order 2 turns reached ran

abbrev locked : Pool
locked = record (create 2) { mutex = true; workers = Worker.checking ∷ Worker.locking ∷ [] }

ran_locked : run (create 2) (Turn.work 0 ∷ Turn.work 1 ∷ Turn.work 0 ∷ []) ≡ some locked
unfolding run step work_at
ran_locked = refl

-- The other worker ends, and the first one waits on.
abbrev still_joining : Pool
still_joining = record (hung 1) { workers = Worker.waiting ∷ Worker.exited ∷ [] }

stays : run (hung 1) (Turn.work 1 ∷ []) ≡ some still_joining
unfolding run step work_at
stays = refl

stop_hangs_example : (run (create 2) missed ≡ some (hung 1)) × (still_joining.owner ≡ Owner.joining)
stop_hangs_example = stop_hangs 1 (Turn.work 1 ∷ []) still_joining (tt, tt) stays

-- The wait ends without a signal: the worker sees that the pool has stopped, and stop() returns.
abbrev returned : Pool
returned = record (hung 1) { workers = Worker.exited ∷ Worker.exited ∷ []; owner = Owner.stopped }

wakes_up :
    run (hung 1) (Turn.work 1 ∷ Turn.spurious 0 ∷ Turn.work 0 ∷ Turn.work 0 ∷ Turn.join ∷ [])
    ≡ some returned
unfolding run step work_at wake_at check join_at
wakes_up = refl

stop_returns_example :
    (length to_end ≤ 2 * length reached.workers + 1) × ((over.owner ≡ Owner.stopped) ⊎ CanMove over)
stop_returns_example = stop_returns 2 turns reached ran refl refl refl to_end over ran_on

abbrev no_items : Items
no_items = record { item = λ i. record { next = none; prev = none }; list = none }

abbrev three_items : Items
three_items = ll_insert 3 (ll_insert 5 (ll_insert 4 no_items))

three_items-IsList : IsList three_items (3 ∷ 5 ∷ 4 ∷ [])
unfolding ll_insert set_next set_prev
three_items-IsList = (
  (refl, refl, (refl, refl, (refl, refl, refl))),
  (
    ((λ e. omega (arith, e)), ((λ e. omega (arith, e)), tt)),
    (((λ e. omega (arith, e)), tt), (tt, tt)),
  ),
)
