-- ===== src/Pools/Cpp03/Return.antt =====
-- The joins of `stop`, where every worker is past its last wait.
use mathlib.Core.Path.{subst}
use learning_cpp.Prelude.{
  ℕ, zero, suc, ◌+◌, ◌*◌, ◌≤◌, ◌≡◌, ◌≢◌, refl, ap, ◌∙◌, arith, Bool, true, false, ◌&&◌, ◌⊎◌, none,
  some, List, [], ◌∷◌, length, Option-cases, Bool-cases, inl, inr, get_elem?, set,
}
use learning_cpp.Pools.Cpp03.{
  Worker, Owner, Pool, Turn, check, work_at, add_at, signal_at, stop_at, broadcast_at, join_at,
  wake_at, step, run, create, all_exited,
}
use learning_cpp.Pools.Cpp03.Exclusion.{holders, IsHeld, IsHeld-run, IsHeld-step, holders-threads}

-- The worker does not wait, and will not.
abbrev pub is_awake : Worker → Bool
is_awake Worker.waiting = false
is_awake Worker.sleepy = false
is_awake w = true

abbrev pub all_awake : List Worker → Bool
all_awake [] = true
all_awake (w ∷ ws) = is_awake w && all_awake ws

-- The turns that a worker has left when the pool does not run.
abbrev left : Worker → ℕ
left Worker.testing = 1
left (Worker.running task) = 2
left Worker.locking = 2
left Worker.checking = 1
left w = 0

abbrev all_left : List Worker → ℕ
all_left [] = 0
all_left (w ∷ ws) = left w + all_left ws

abbrev owner_left : Owner → ℕ
owner_left Owner.joining = 1
owner_left o = 0

record IsEnding (p : Pool) : Type 0 where
  not_running : p.is_running ≡ false
  past : (p.owner ≡ Owner.joining) ⊎ (p.owner ≡ Owner.stopped)
  awake : all_awake p.workers ≡ true
  is_held : IsHeld p

all_left-set :
    (ws : List Worker) (i : ℕ) (w w' : Worker)
    → get_elem? ws i ≡ some w
    → all_left (set ws i w') + left w ≡ all_left ws + left w'
all_left-set [] i w w' e = absurd (ground arith)
all_left-set (v ∷ ws) zero w w' e = ground arith
all_left-set (v ∷ ws) (suc i) w w' e = omega (arith, all_left-set ws i w w' e)

all_awake-set :
    (ws : List Worker) (i : ℕ) (w : Worker)
    → all_awake ws ≡ true
    → is_awake w ≡ true
    → all_awake (set ws i w) ≡ true
all_awake-set [] i w h k = refl
all_awake-set (v ∷ ws) zero w h k = ground arith
all_awake-set (v ∷ ws) (suc i) w h k = ground (arith, all_awake-set ws i w)

is_awake-get :
    (ws : List Worker) (i : ℕ) (w : Worker)
    → all_awake ws ≡ true
    → get_elem? ws i ≡ some w
    → is_awake w ≡ true
is_awake-get [] i w h e = absurd (ground arith)
is_awake-get (v ∷ ws) zero w h e = ground arith
is_awake-get (v ∷ ws) (suc i) w h e = ground (arith, is_awake-get ws i w)

-- The worker that a turn leaves.
abbrev next : Worker → Worker
next Worker.locking = Worker.checking
next (Worker.running task) = Worker.testing
next w = Worker.exited

work_ending :
    (p p' : Pool) (i : ℕ) (w : Worker)
    → p.is_running ≡ false
    → is_awake w ≡ true
    → work_at p i w ≡ some p'
    → (p'.workers ≡ set p.workers i (next w))
      × ((p'.owner ≡ p.owner) × ((p'.is_running ≡ false) × (left (next w) + 1 ≡ left w)))
unfolding work_at check
work_ending p p' i w r a e = (ground arith, (ground arith, (ground arith, ground arith)))

abbrev pool_left : Pool → ℕ
pool_left p = all_left p.workers + owner_left p.owner

-- A turn on the way to the end leaves fewer turns, and it is still the way to the end.
abbrev Shortens : Pool → Pool → Type 0
Shortens p p' = IsEnding p' × (pool_left p' + 1 ≤ pool_left p)

Shortens-work :
    (p p' : Pool) (i : ℕ) (w : Worker)
    → IsEnding p
    → get_elem? p.workers i ≡ some w
    → work_at p i w ≡ some p'
    → IsHeld p'
    → Shortens p p'
Shortens-work p p' i w h g e held' =
    let a = is_awake-get p.workers i w h.awake g in
    let (ws, (o, (r, l))) = work_ending p p' i w h.not_running a e in
    let awake' : is_awake (next w) ≡ true = ground arith in
    (
      record {
        not_running = r;
        past = ground (arith, h.past);
        awake = ap all_awake ws ∙ all_awake-set p.workers i (next w) h.awake awake';
        is_held = held';
      },
      omega (arith, ap all_left ws, ap owner_left o, all_left-set p.workers i w (next w) g, l),
    )

Shortens-step : (p p' : Pool) (t : Turn) → IsEnding p → step p t ≡ some p' → Shortens p p'
unfolding step wake_at add_at signal_at stop_at broadcast_at join_at
Shortens-step p p' (Turn.work i) h e = elim (Option-cases (get_elem? p.workers i)) [
  | inl g ↦ absurd (ground arith)
  | inr (w, g) ↦
      Shortens-work p p' i w h g (ground arith) (IsHeld-step p p' (Turn.work i) h.is_held e)
]
Shortens-step p p' Turn.join h e = (
  record {
    not_running = ground (arith, h.not_running);
    past = inr (ground arith);
    awake = ground (arith, h.awake);
    is_held = ground (arith, h.is_held);
  },
  ground (arith, h.past),
)
Shortens-step p p' (Turn.spurious i) h e = elim (Option-cases (get_elem? p.workers i)) [
  | inl g ↦ absurd (ground arith)
  | inr (w, g) ↦ let a = is_awake-get p.workers i w h.awake g in absurd (ground (arith, a))
]
Shortens-step p p' (Turn.add_task x) h e = absurd (ground (arith, h.past))
Shortens-step p p' (Turn.signal i) h e = absurd (ground (arith, h.past))
Shortens-step p p' Turn.stop h e = absurd (ground (arith, h.past))
Shortens-step p p' Turn.broadcast h e = absurd (ground (arith, h.past))

Shortens-run :
    (ts : List Turn) (p p' : Pool)
    → IsEnding p
    → run p ts ≡ some p'
    → IsEnding p' × (pool_left p' + length ts ≤ pool_left p)
unfolding run
Shortens-run [] p p' h e = let same : p ≡ p' = ground arith in (subst IsEnding same h, ground arith)
Shortens-run (t ∷ ts) p p' h e = elim (Option-cases (step p t)) [
  | inl f ↦ absurd (ground arith)
  | inr (q, f) ↦
      let (k, l) = Shortens-step p q t h f in
      let (k', l') = Shortens-run ts q p' k (ground arith) in (k', omega (arith, l, l'))
]

-- Some thread can take its turn.
abbrev pub CanMove : Pool → Type 0
CanMove p = (t : Turn) × ((p' : Pool) × (step p t ≡ some p'))

moves : (p : Pool) (t : Turn) → step p t ≢ none → CanMove p
moves p t h = elim (Option-cases (step p t)) [ inl e ↦ absurd (h e) | inr (p', e) ↦ (t, (p', e)) ]

-- A worker that is awake and has not ended: one before the mutex, or one that can move.
abbrev Pending : Worker → Type 0
Pending w =
    (w ≡ Worker.locking)
    ⊎ ((w ≡ Worker.testing) ⊎ ((w ≡ Worker.checking) ⊎ ((task : ℕ) × (w ≡ Worker.running task))))

find_pending :
    (ws : List Worker)
    → all_awake ws ≡ true
    → (all_exited ws ≡ true) ⊎ ((i : ℕ) × ((w : Worker) × ((get_elem? ws i ≡ some w) × Pending w)))
find_pending [] h = inl refl
find_pending (Worker.exited ∷ ws) h = elim (find_pending ws h) [
  | inl e ↦ inl e
  | inr (i, r) ↦ inr (suc i, r)
]
find_pending (Worker.testing ∷ ws) h = inr (0, (Worker.testing, (refl, inr (inl refl))))
find_pending (Worker.locking ∷ ws) h = inr (0, (Worker.locking, (refl, inl refl)))
find_pending (Worker.checking ∷ ws) h = inr (0, (Worker.checking, (refl, inr (inr (inl refl)))))
find_pending (Worker.running task ∷ ws) h =
    inr (0, (Worker.running task, (refl, inr (inr (inr (task, refl))))))
find_pending (Worker.waiting ∷ ws) h = absurd (cc)
find_pending (Worker.sleepy ∷ ws) h = absurd (cc)

find_checking :
    (ws : List Worker)
    → all_awake ws ≡ true
    → holders ws ≡ 1
    → (i : ℕ) × (get_elem? ws i ≡ some Worker.checking)
find_checking [] h e = absurd (omega arith)
find_checking (Worker.checking ∷ ws) h e = (0, refl)
find_checking (Worker.sleepy ∷ ws) h e = absurd (cc)
find_checking (Worker.waiting ∷ ws) h e = absurd (cc)
find_checking (w ∷ ws) h e = let (i, g) = find_checking ws h (omega (arith, e)) in (suc i, g)

-- It is not over until the owner has returned.
not_over : (p : Pool) → IsEnding p → (p.owner ≡ Owner.stopped) ⊎ CanMove p
unfolding step work_at join_at
not_over p h = elim h.past [
  | inr s ↦ inl s
  | inl o ↦ elim (find_pending p.workers h.awake) [
    | inl all ↦ inr (moves p Turn.join (λ e. ground arith))
    | inr (i, (w, (g, inr other))) ↦ inr (moves p (Turn.work i) (λ e. ground (arith, other)))
    | inr (i, (w, (g, inl before))) ↦ elim (Bool-cases p.mutex) [
      | inr free ↦ inr (moves p (Turn.work i) (λ e. ground arith))
      | inl taken ↦
          let (j, c) = find_checking p.workers h.awake (ground (arith, h.is_held)) in
          inr (moves p (Turn.work j) (λ e. ground arith))
    ]
  ]
]

all_left-le : (ws : List Worker) → all_left ws ≤ 2 * length ws
all_left-le [] = omega arith
all_left-le (w ∷ ws) = ground (arith, all_left-le ws)

-- Once `stop` has broadcast, with no worker that waits or is about to wait: `stop` returns. Under any
-- schedule the threads take at most two turns for each worker and one more, and as long as `stop`
-- has not returned, a thread can move.
pub stop_returns :
    (thread_num : ℕ) (turns : List Turn) (p : Pool)
    → run (create thread_num) turns ≡ some p
    → p.is_running ≡ false
    → p.owner ≡ Owner.joining
    → all_awake p.workers ≡ true
    → (later : List Turn) (p' : Pool) → run p later ≡ some p'
    → (length later ≤ 2 * length p.workers + 1) × ((p'.owner ≡ Owner.stopped) ⊎ CanMove p')
stop_returns thread_num turns p e r o a later p' e' =
    let ending : IsEnding p = record {
      not_running = r;
      past = inl o;
      awake = a;
      is_held = IsHeld-run turns (create thread_num) p (holders-threads thread_num) e;
    } in
    let (ending', bound) = Shortens-run later p p' ending e' in
    (ground (arith, bound, all_left-le p.workers), not_over p' ending')
