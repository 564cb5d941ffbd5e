-- ===== src/Pools/Simple/Threads.antt =====
-- The threads of zl_threadpool/01_simple_threadPool/threadPool.cpp under a schedule. What a thread does
-- with the mutex is one turn, with the `free` behind it if there is one; it reads `terminate` once, which
-- only ever becomes 1. One thread calls nThreadPoolPushTask and nThreadPoolDestory; `cond` has no spurious
-- wakeups.
pub mod Jobs
pub mod Wakeups
pub mod Marks
pub mod Ends
use learning_cpp.Prelude.{
  ℕ, zero, suc, ◌+◌, ℤ, ltb_ℤ, pos_part, Bool, true, false, ◌||◌, Option, none, some, if◌then◌else◌,
  List, [], ◌∷◌, ◌++◌, map, get_elem?, set, arith, ◌≡◌, refl, ◌⊎◌, inl, inr,
}
use learning_cpp.Pools.Simple.{Item, Items, ll_insert, ll_remove}

-- Before the mutex (for the first time, after a job or after a wakeup), in the wait, in a job, or freed.
pub data Place : Type 0 where
  locking waiting freed : Place
  running : ℕ → Place

pub record Worker : Type 0 where
  pub terminate : Bool
  pub place : Place

-- The thread of the owner: between two calls, or in nThreadPoolDestory with a pointer to worker `i`, or
-- with `worker->next` of worker `i` to read, or behind it.
pub data Owner : Type 0 where
  idle destroyed : Owner
  marking advancing : ℕ → Owner

-- The workers are in the order of their list. `taken` has the jobs that workers took, in their order.
pub record Pool : Type 0 where
  pub jobs : Items
  pub workers : List Worker
  pub owner : Owner
  pub taken : List ℕ

-- A push names the worker that its signal wakes.
pub data Turn : Type 0 where
  work : ℕ → Turn
  push_task : ℕ → ℕ → Turn
  destory destory_on : Turn

-- A thread that cannot move now, a read of freed memory, or the state after the turn.
pub data Outcome : Type 0 where
  blocks faults : Outcome
  goes : Pool → Outcome

abbrev pub move : Pool → ℕ → Worker → Place → Pool
move p i w place = record p { workers = set p.workers i (record w { place = place }) }

-- `nThreadCallback` from the lock to the unlock.
unfoldable pub region : Pool → ℕ → Worker → Option ℕ → Pool
region p i w none = move p i w (if w.terminate then Place.freed else Place.waiting)
region p i w (some job) =
    if w.terminate then move p i w Place.freed else record (move p i w (Place.running job)) {
      jobs = ll_remove job p.jobs;
      taken = p.taken ++ job ∷ [];
    }

unfoldable pub work_at : Pool → ℕ → Worker → Place → Outcome
work_at p i w Place.locking = Outcome.goes (region p i w p.jobs.list)
work_at p i w Place.waiting = Outcome.blocks
work_at p i w (Place.running job) = Outcome.goes (move p i w Place.locking)
work_at p i w Place.freed = Outcome.blocks

abbrev pub is_waiting : Place → Bool
is_waiting Place.waiting = true
is_waiting p = false

abbrev pub any_waiting : List Worker → Bool
any_waiting [] = false
any_waiting (w ∷ ws) = is_waiting w.place || any_waiting ws

abbrev pub pushed : Pool → ℕ → Pool
pushed p job = record p { jobs = ll_insert job p.jobs }

-- `pthread_cond_signal` wakes a worker that waits, if there is one.
unfoldable pub push_at : Pool → ℕ → ℕ → Owner → Outcome
push_at p job i Owner.idle = elim (get_elem? p.workers i) [
  | none ↦ if any_waiting p.workers then Outcome.blocks else Outcome.goes (pushed p job)
  | some w ↦
      if is_waiting w.place
      then Outcome.goes (move (pushed p job) i w Place.locking)
      else if any_waiting p.workers
      then Outcome.blocks
      else Outcome.goes (pushed p job)
]
push_at p job i o = Outcome.blocks

abbrev pub woken : Worker → Worker
woken w = if is_waiting w.place then record w { place = Place.locking } else w

abbrev pub has_freed : Place → Bool
has_freed Place.freed = true
has_freed p = false

-- A turn of `nThreadPoolDestory`: a write of `terminate`, a read of `next`, or the broadcast.
unfoldable pub destory_at : Pool → Owner → Outcome
destory_at p Owner.idle = Outcome.blocks
destory_at p (Owner.marking i) = elim (get_elem? p.workers i) [
  | none ↦ Outcome.goes (record p { workers = map woken p.workers; owner = Owner.destroyed })
  | some w ↦
      if has_freed w.place
      then Outcome.faults
      else Outcome.goes (record p {
        workers = set p.workers i (record w { terminate = true });
        owner = Owner.advancing i;
      })
]
destory_at p (Owner.advancing i) = elim (get_elem? p.workers i) [
  | none ↦ Outcome.faults
  | some w ↦
      if has_freed w.place
      then Outcome.faults
      else Outcome.goes (record p { owner = Owner.marking (i + 1) })
]
destory_at p Owner.destroyed = Outcome.blocks

abbrev begin_destory : Pool → Owner → Outcome
begin_destory p Owner.idle = Outcome.goes (record p { owner = Owner.marking 0 })
begin_destory p o = Outcome.blocks

unfoldable pub step : Pool → Turn → Outcome
step p (Turn.work i) = elim (get_elem? p.workers i) [
  | none ↦ Outcome.blocks
  | some w ↦ work_at p i w w.place
]
step p (Turn.push_task job i) = push_at p job i p.owner
step p Turn.destory = begin_destory p p.owner
step p Turn.destory_on = destory_at p p.owner

-- A schedule, of which every turn must be one that moves.
unfoldable pub run : Pool → List Turn → Outcome
run p [] = Outcome.goes p
run p (t ∷ ts) = elim (step p t) [
  | blocks ↦ Outcome.blocks
  | faults ↦ Outcome.faults
  | Outcome.goes p' ↦ run p' ts
]

Outcome-cases :
    (o : Outcome)
    → (o ≡ Outcome.blocks) ⊎ (o ≡ Outcome.faults) ⊎ ((p : Pool) × (o ≡ Outcome.goes p))
Outcome-cases Outcome.blocks = inl refl
Outcome-cases Outcome.faults = inr (inl refl)
Outcome-cases (Outcome.goes p) = inr (inr (p, refl))

-- A schedule that moves is a turn that moves and the rest.
pub run-cons :
    (p p' : Pool) (t : Turn) (ts : List Turn)
    → run p (t ∷ ts) ≡ Outcome.goes p'
    → (mid : Pool) × (step p t ≡ Outcome.goes mid) × (run mid ts ≡ Outcome.goes p')
unfolding run
run-cons p p' t ts e = elim (Outcome-cases (step p t)) [
  | inl f ↦ absurd (ground arith)
  | inr (inl f) ↦ absurd (ground arith)
  | inr (inr (mid, f)) ↦ (mid, f, ground arith)
]

-- What malloc and pthread_create do for a worker.
pub data Answer : Type 0 where
  started no_memory no_thread : Answer

abbrev pub new_worker : Worker
new_worker = record { terminate = false; place = Place.locking }

-- The loop of `nThreadPoolCreate`, with `n` workers to go: what is returned, and the list of the workers.
unfoldable pub create_loop : ℕ → ℕ → (ℕ → Answer) → List Worker → ℤ × List Worker
create_loop zero i answers ws = (ℤ.pos 0, ws)
create_loop (suc n) i answers ws =
    let rest = create_loop n (i + 1) answers (new_worker ∷ ws) in
    elim (answers i) [
      | started ↦ rest
      | no_memory ↦ (ℤ.negsuc 1, ws)
      | no_thread ↦ (ℤ.negsuc 2, ws)
    ]

-- `numWorker`, or 1.
abbrev pub worker_count : ℤ → ℕ
worker_count n = if ltb_ℤ n (ℤ.pos 1) then 1 else pos_part n

-- `nThreadPoolCreate` of a pool whose pointer is not null. What the memory of the jobs holds is `m`.
unfoldable pub create : ℤ → (ℕ → Answer) → (ℕ → Item) → ℤ × Pool
create num_worker answers m =
    let (ret, ws) = create_loop (worker_count num_worker) 0 answers [] in
    (
      ret,
      record {
        jobs = record { item = m; list = none };
        workers = ws;
        owner = Owner.idle;
        taken = [];
      },
    )
