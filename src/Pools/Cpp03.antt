-- ===== src/Pools/Cpp03.antt =====
-- zl_threadpool/ThreadPoolCpp03/, whose functions ThreadPoolCpp98 has too. A turn is what a thread does
-- between two points at which another thread may see or change what it works on. One thread calls
-- `addTask` and `stop`. A worker that waits may wake up spuriously.
pub mod Order
pub mod Exclusion
pub mod Stop
pub mod Return
use learning_cpp.Prelude.{
  ℕ, zero, suc, Bool, true, false, ◌&&◌, ◌||◌, Option, none, some, if◌then◌else◌, List, [], ◌∷◌,
  ◌++◌, map, get_elem?, set,
}

-- Where a worker is in `threadFunc` and `take`: at the loop's test, before the mutex (for the first
-- time or after a wakeup), at the inner loop's test, about to wait, waiting, in a task, or at its end.
-- It holds the mutex while it checks and while it is about to wait.
pub data Worker : Type 0 where
  testing locking checking sleepy waiting exited : Worker
  running : ℕ → Worker

-- Where the thread of the pool's owner is: between two calls, between the push and the signal of
-- `addTask`, between the flag and the broadcast of `stop`, in its joins, or behind it.
pub data Owner : Type 0 where
  idle signalling stopping joining stopped : Owner

-- A task is a number. `taken` has the tasks that workers took, in their order.
pub record Pool : Type 0 where
  pub is_running : Bool
  pub task_queue : List ℕ
  pub mutex : Bool
  pub workers : List Worker
  pub owner : Owner
  pub taken : List ℕ

-- `signal` names the worker that is woken, if it waits.
pub data Turn : Type 0 where
  work spurious : ℕ → Turn
  add_task : ℕ → Turn
  signal : ℕ → Turn
  stop broadcast join : Turn

abbrev pub move : Pool → ℕ → Worker → Pool
move p i w = record p { workers = set p.workers i w }

abbrev pub lock : Pool → ℕ → Worker → Option Pool
lock p i w = if p.mutex then none else some (record (move p i w) { mutex = true })

abbrev pub unlock : Pool → ℕ → Worker → Pool
unlock p i w = record (move p i w) { mutex = false }

-- `take` from the inner loop's test on.
unfoldable pub check : Pool → ℕ → List ℕ → Pool
check p i [] = if p.is_running then move p i Worker.sleepy else unlock p i Worker.exited
check p i (task ∷ rest) =
    if p.is_running
    then record (unlock p i (Worker.running task)) {
      task_queue = rest;
      taken = p.taken ++ task ∷ [];
    }
    else unlock p i Worker.exited

-- `threadFunc`, with `take`.
unfoldable pub work_at : Pool → ℕ → Worker → Option Pool
work_at p i Worker.testing =
    some (move p i (if p.is_running then Worker.locking else Worker.exited))
work_at p i Worker.locking = lock p i Worker.checking
work_at p i Worker.checking = some (check p i p.task_queue)
work_at p i Worker.sleepy = some (unlock p i Worker.waiting)
work_at p i Worker.waiting = none
work_at p i (Worker.running task) = some (move p i Worker.testing)
work_at p i Worker.exited = none

-- `addTask` up to its unlock.
unfoldable pub add_at : Pool → ℕ → Owner → Option Pool
add_at p task Owner.idle =
    if p.mutex
    then none
    else some (record p { task_queue = p.task_queue ++ task ∷ []; owner = Owner.signalling })
add_at p task o = none

abbrev pub woken : Worker → Worker
woken Worker.waiting = Worker.locking
woken w = w

abbrev pub is_waiting : Worker → Bool
is_waiting Worker.waiting = true
is_waiting w = false

abbrev pub has_exited : Worker → Bool
has_exited Worker.exited = true
has_exited w = false

abbrev pub any_waiting : List Worker → Bool
any_waiting [] = false
any_waiting (w ∷ ws) = is_waiting w || any_waiting ws

abbrev pub all_exited : List Worker → Bool
all_exited [] = true
all_exited (w ∷ ws) = has_exited w && all_exited ws

-- `pthread_cond_signal`: some worker that waits wakes up, if there is one.
unfoldable pub signal_at : Pool → ℕ → Owner → Option Pool
signal_at p i Owner.signalling = elim (get_elem? p.workers i) [
  | some Worker.waiting ↦ some (record (move p i Worker.locking) { owner = Owner.idle })
  | _ ↦ if any_waiting p.workers then none else some (record p { owner = Owner.idle })
]
signal_at p i o = none

-- `stop`, in three turns. It returns at once if the pool does not run.
unfoldable pub stop_at : Pool → Owner → Option Pool
stop_at p Owner.idle = some (
    if p.is_running
    then record p { is_running = false; owner = Owner.stopping }
    else record p { owner = Owner.stopped })
stop_at p o = none

unfoldable pub broadcast_at : Pool → Owner → Option Pool
broadcast_at p Owner.stopping =
    some (record p { workers = map woken p.workers; owner = Owner.joining })
broadcast_at p o = none

unfoldable pub join_at : Pool → Owner → Option Pool
join_at p Owner.joining =
    if all_exited p.workers then some (record p { owner = Owner.stopped }) else none
join_at p o = none

-- A wakeup of `pthread_cond_wait` without a signal.
unfoldable pub wake_at : Pool → ℕ → Worker → Option Pool
wake_at p i Worker.waiting = some (move p i Worker.locking)
wake_at p i w = none

unfoldable pub step : Pool → Turn → Option Pool
step p (Turn.work i) = elim (get_elem? p.workers i) [ none ↦ none | some w ↦ work_at p i w ]
step p (Turn.spurious i) = elim (get_elem? p.workers i) [ none ↦ none | some w ↦ wake_at p i w ]
step p (Turn.add_task task) = add_at p task p.owner
step p (Turn.signal i) = signal_at p i p.owner
step p Turn.stop = stop_at p p.owner
step p Turn.broadcast = broadcast_at p p.owner
step p Turn.join = join_at p p.owner

-- A schedule, of which every turn must be one that moves.
unfoldable pub run : Pool → List Turn → Option Pool
run p [] = some p
run p (t ∷ ts) = elim (step p t) [ none ↦ none | some p' ↦ run p' ts ]

abbrev pub threads : ℕ → List Worker
threads zero = []
threads (suc n) = Worker.testing ∷ threads n

-- The constructor, with the threads begun.
abbrev pub create : ℕ → Pool
create thread_num = record {
  is_running = true;
  task_queue = [];
  mutex = false;
  workers = threads thread_num;
  owner = Owner.idle;
  taken = [];
}
