-- ===== src/Pools/Cpp03/Stop.antt =====
-- `stop`, which changes `isRunning_` and broadcasts without the mutex.
use mathlib.Core.Path.{subst}
use learning_cpp.Prelude.{
  ℕ, zero, suc, ◌≡◌, ◌≢◌, refl, ap, ◌∙◌, arith, false, some, if◌then◌else◌, List, [], ◌∷◌,
  Option-cases, inl, inr, get_elem?, set, map, All,
}
use learning_cpp.Pools.Cpp03.{
  Worker, Owner, Pool, Turn, check, work_at, add_at, signal_at, stop_at, broadcast_at, join_at,
  step, run, create, threads, woken, all_exited,
}

get_elem?-set_other :
    (ws : List Worker) (i j : ℕ) (w : Worker) → i ≢ j → get_elem? (set ws i w) j ≡ get_elem? ws j
get_elem?-set_other [] i j w h = refl
get_elem?-set_other (v ∷ ws) zero zero w h = absurd (h refl)
get_elem?-set_other (v ∷ ws) zero (suc j) w h = refl
get_elem?-set_other (v ∷ ws) (suc i) zero w h = refl
get_elem?-set_other (v ∷ ws) (suc i) (suc j) w h = get_elem?-set_other ws i j w (λ e. h (ap suc e))

-- The owner joins, and a worker waits for a wakeup.
record IsStuck (i : ℕ) (p : Pool) : Type 0 where
  joins : p.owner ≡ Owner.joining
  waits : get_elem? p.workers i ≡ some Worker.waiting

not_all_exited :
    (ws : List Worker) (i : ℕ) → get_elem? ws i ≡ some Worker.waiting → all_exited ws ≡ false
not_all_exited [] i e = absurd (ground arith)
not_all_exited (w ∷ ws) zero e = ground arith
not_all_exited (w ∷ ws) (suc i) e = ground (arith, not_all_exited ws i e)

-- What a turn of a worker may change of the workers and of the owner.
record Moved (j : ℕ) (p p' : Pool) : Type 0 where
  worker : Worker
  workers_are : p'.workers ≡ set p.workers j worker
  owner_is : p'.owner ≡ p.owner

check-Moved : (j : ℕ) (p : Pool) (q : List ℕ) → Moved j p (check p j q)
unfolding check
check-Moved j p [] = record {
  worker = if p.is_running then Worker.sleepy else Worker.exited;
  workers_are = ground arith;
  owner_is = ground arith;
}
check-Moved j p (task ∷ rest) = record {
  worker = if p.is_running then Worker.running task else Worker.exited;
  workers_are = ground arith;
  owner_is = ground arith;
}

-- The worker that a turn leaves, but for the check.
abbrev after : Pool → Worker → Worker
after p Worker.testing = if p.is_running then Worker.locking else Worker.exited
after p Worker.locking = Worker.checking
after p Worker.sleepy = Worker.waiting
after p w = Worker.testing

work_at-Moved : (j : ℕ) (p p' : Pool) (w : Worker) → work_at p j w ≡ some p' → Moved j p p'
unfolding work_at
work_at-Moved j p p' Worker.checking e =
    let same : check p j p.task_queue ≡ p' = ground arith in
    subst (Moved j p) same (check-Moved j p p.task_queue)
work_at-Moved j p p' w e = record {
  worker = after p w;
  workers_are = ground arith;
  owner_is = ground arith;
}

IsStuck-work : (i j : ℕ) (p p' : Pool) → IsStuck i p → step p (Turn.work j) ≡ some p' → IsStuck i p'
unfolding step work_at
IsStuck-work i j p p' h e = elim (Option-cases (get_elem? p.workers j)) [
  | inl g ↦ absurd (ground arith)
  | inr (w, g) ↦
      let m = work_at-Moved j p p' w (ground arith) in
      let other : j ≢ i = λ q. ground (arith, h.waits) in
      record {
        joins = m.owner_is ∙ h.joins;
        waits =
            ap (λ ws. get_elem? ws i) m.workers_are
            ∙ get_elem?-set_other p.workers j i m.worker other
            ∙ h.waits;
      }
]

-- A turn that is no spurious wakeup.
abbrev pub IsRegular : Turn → Type 0
IsRegular (Turn.spurious i) = ⊥
IsRegular t = Unit

IsStuck-step :
    (i : ℕ) (p p' : Pool) (t : Turn) → IsRegular t → IsStuck i p → step p t ≡ some p' → IsStuck i p'
unfolding step add_at signal_at stop_at broadcast_at join_at
IsStuck-step i p p' (Turn.work j) r h e = IsStuck-work i j p p' h e
IsStuck-step i p p' (Turn.spurious j) r h e = absurd r
IsStuck-step i p p' (Turn.add_task x) r h e = absurd (ground (arith, h.joins))
IsStuck-step i p p' (Turn.signal j) r h e = absurd (ground (arith, h.joins))
IsStuck-step i p p' Turn.stop r h e = absurd (ground (arith, h.joins))
IsStuck-step i p p' Turn.broadcast r h e = absurd (ground (arith, h.joins))
IsStuck-step i p p' Turn.join r h e =
    absurd (ground (arith, h.joins, not_all_exited p.workers i h.waits))

IsStuck-run :
    (i : ℕ) (ts : List Turn) (p p' : Pool)
    → All IsRegular ts
    → IsStuck i p
    → run p ts ≡ some p'
    → IsStuck i p'
unfolding run
IsStuck-run i [] p p' r h e = let same : p ≡ p' = ground arith in subst (IsStuck i) same h
IsStuck-run i (t ∷ ts) p p' r h e = elim (Option-cases (step p t)) [
  | inl f ↦ absurd (ground arith)
  | inr (q, f) ↦ IsStuck-run i ts q p' r.1 (IsStuck-step i p q t r.0 h f) (ground arith)
]

-- A worker has found the queue empty and the pool running, and waits only after the broadcast.
abbrev pub missed : List Turn
missed = Turn.work 0 ∷ Turn.work 0 ∷ Turn.work 0 ∷ Turn.stop ∷ Turn.broadcast ∷ Turn.work 0 ∷ []

abbrev pub hung : ℕ → Pool
hung n = record {
  is_running = false;
  task_queue = [];
  mutex = false;
  workers = Worker.waiting ∷ map woken (threads n);
  owner = Owner.joining;
  taken = [];
}

run-missed : (n : ℕ) → run (create (suc n)) missed ≡ some (hung n)
unfolding run step work_at check stop_at broadcast_at
run-missed n = refl

-- `stop` may hang: with any number of threads but none, a schedule of a new pool leads to a pool whose
-- owner joins a worker that waits; and whatever the threads do then, as long as no worker wakes up
-- spuriously, the owner joins.
pub stop_hangs :
    (n : ℕ) (later : List Turn) (p' : Pool)
    → All IsRegular later
    → run (hung n) later ≡ some p'
    → (run (create (suc n)) missed ≡ some (hung n)) × (p'.owner ≡ Owner.joining)
stop_hangs n later p' r e = (
  run-missed n,
  (IsStuck-run 0 later (hung n) p' r (record { joins = refl; waits = refl }) e).joins,
)
