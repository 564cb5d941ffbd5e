-- ===== src/Pools/Cpp03/Exclusion.antt =====
-- Who holds the mutex.
use learning_cpp.Prelude.{
  ℕ, zero, suc, ◌+◌, ◌≤◌, ◌≡◌, refl, ap, arith, Bool, true, false, some, List, [], ◌∷◌,
  Option-cases, inl, inr, get_elem?, set, map,
}
use mathlib.Core.Path.{subst}
use learning_cpp.Pools.Cpp03.{
  Worker, Pool, Turn, check, work_at, add_at, signal_at, stop_at, broadcast_at, join_at, wake_at,
  step, run, create, threads, woken,
}

-- One for a worker that holds the mutex.
abbrev pub held : Worker → ℕ
held Worker.checking = 1
held Worker.sleepy = 1
held w = 0

abbrev pub holders : List Worker → ℕ
holders [] = 0
holders (w ∷ ws) = held w + holders ws

abbrev pub one_if : Bool → ℕ
one_if true = 1
one_if false = 0

abbrev pub IsHeld : Pool → Type 0
IsHeld p = holders p.workers ≡ one_if p.mutex

pub holders-set :
    (ws : List Worker) (i : ℕ) (w w' : Worker)
    → get_elem? ws i ≡ some w
    → holders (set ws i w') + held w ≡ holders ws + held w'
holders-set [] i w w' e = absurd (ground arith)
holders-set (v ∷ ws) zero w w' e = ground arith
holders-set (v ∷ ws) (suc i) w w' e = omega (arith, holders-set ws i w w' e)

holders-woken : (ws : List Worker) → holders (map woken ws) ≡ holders ws
holders-woken [] = refl
holders-woken (w ∷ ws) = ground (arith, holders-woken ws)

pub holders-threads : (n : ℕ) → holders (threads n) ≡ 0
holders-threads zero = refl
holders-threads (suc n) = ground (arith, holders-threads n)

IsHeld-check :
    (p : Pool) (i : ℕ) (q : List ℕ)
    → IsHeld p
    → get_elem? p.workers i ≡ some Worker.checking
    → IsHeld (check p i q)
unfolding check
IsHeld-check p i [] h g = ground (
  arith,
  holders-set p.workers i Worker.checking Worker.sleepy g,
  holders-set p.workers i Worker.checking Worker.exited g,
)
IsHeld-check p i (task ∷ rest) h g = ground (
  arith,
  holders-set p.workers i Worker.checking (Worker.running task) g,
  holders-set p.workers i Worker.checking Worker.exited g,
)

IsHeld-work :
    (p p' : Pool) (i : ℕ) (w : Worker)
    → IsHeld p
    → get_elem? p.workers i ≡ some w
    → work_at p i w ≡ some p'
    → IsHeld p'
unfolding work_at
IsHeld-work p p' i Worker.testing h g e = ground (
  arith,
  holders-set p.workers i Worker.testing Worker.locking g,
  holders-set p.workers i Worker.testing Worker.exited g,
)
IsHeld-work p p' i Worker.locking h g e =
    ground (arith, holders-set p.workers i Worker.locking Worker.checking g)
IsHeld-work p p' i Worker.checking h g e = ground (arith, IsHeld-check p i p.task_queue h g)
IsHeld-work p p' i Worker.sleepy h g e =
    ground (arith, holders-set p.workers i Worker.sleepy Worker.waiting g)
IsHeld-work p p' i (Worker.running task) h g e =
    ground (arith, holders-set p.workers i (Worker.running task) Worker.testing g)
IsHeld-work p p' i Worker.waiting h g e = absurd (cc)
IsHeld-work p p' i Worker.exited h g e = absurd (cc)

pub IsHeld-step : (p p' : Pool) (t : Turn) → IsHeld p → step p t ≡ some p' → IsHeld p'
unfolding step wake_at add_at signal_at stop_at broadcast_at join_at
IsHeld-step p p' (Turn.work i) h e = elim (Option-cases (get_elem? p.workers i)) [
  | inl g ↦ absurd (ground arith)
  | inr (w, g) ↦ IsHeld-work p p' i w h g (ground arith)
]
IsHeld-step p p' (Turn.spurious i) h e =
    ground (arith, h, holders-set p.workers i Worker.waiting Worker.locking)
IsHeld-step p p' (Turn.add_task x) h e = ground (arith, h)
IsHeld-step p p' (Turn.signal i) h e =
    ground (arith, h, holders-set p.workers i Worker.waiting Worker.locking)
IsHeld-step p p' Turn.stop h e = ground (arith, h)
IsHeld-step p p' Turn.broadcast h e = ground (arith, h, holders-woken p.workers)
IsHeld-step p p' Turn.join h e = ground (arith, h)

pub IsHeld-run : (ts : List Turn) (p p' : Pool) → IsHeld p → run p ts ≡ some p' → IsHeld p'
unfolding run
IsHeld-run [] p p' h e = let same : p ≡ p' = ground arith in subst IsHeld same h
IsHeld-run (t ∷ ts) p p' h e = elim (Option-cases (step p t)) [
  | inl f ↦ absurd (ground arith)
  | inr (q, f) ↦ IsHeld-run ts q p' (IsHeld-step p q t h f) (ground arith)
]

some_holder :
    (ws : List Worker) (i : ℕ) (w : Worker) → get_elem? ws i ≡ some w → held w ≤ holders ws
some_holder [] i w e = absurd (ground arith)
some_holder (v ∷ ws) zero w e = ground arith
some_holder (v ∷ ws) (suc i) w e = omega (arith, some_holder ws i w e)

one_holder :
    (ws : List Worker) (i j : ℕ) (v w : Worker)
    → holders ws ≤ 1
    → get_elem? ws i ≡ some v
    → held v ≡ 1
    → get_elem? ws j ≡ some w
    → held w ≡ 1
    → i ≡ j
one_holder [] i j v w h gi hi gj hj = absurd (ground arith)
one_holder (u ∷ ws) zero zero v w h gi hi gj hj = refl
one_holder (u ∷ ws) zero (suc j) v w h gi hi gj hj = absurd (ground (arith, some_holder ws j w gj))
one_holder (u ∷ ws) (suc i) zero v w h gi hi gj hj = absurd (ground (arith, some_holder ws i v gi))
one_holder (u ∷ ws) (suc i) (suc j) v w h gi hi gj hj =
    ap suc (one_holder ws i j v w (omega arith) gi hi gj hj)

-- Under any schedule of a new pool, at most one worker is between the lock and the unlock of `mutex_`.
pub one_worker_holds :
    (thread_num : ℕ) (turns : List Turn) (p : Pool)
    → run (create thread_num) turns ≡ some p
    → (i j : ℕ) (v w : Worker) → get_elem? p.workers i ≡ some v
    → held v ≡ 1
    → get_elem? p.workers j ≡ some w
    → held w ≡ 1
    → i ≡ j
one_worker_holds thread_num turns p e i j v w gi hi gj hj =
    let h = IsHeld-run turns (create thread_num) p (holders-threads thread_num) e in
    one_holder p.workers i j v w (ground (arith, h)) gi hi gj hj
