-- ===== src/Pools/Simple/Threads/Wakeups.antt =====
-- No wakeup is lost in zl_threadpool/01_simple_threadPool/threadPool.cpp.
use learning_cpp.Prelude.{
  ℕ, zero, suc, ◌+◌, ◌≡◌, refl, sym, ap, ◌∙◌, ◌++◌, arith, Bool, true, false, not, ◌&&◌, ◌||◌, ◌⊎◌,
  inl, inr, Option, none, some, Option-cases, Bool-cases, if◌then◌else◌, ℤ, List, [], ◌∷◌,
  get_elem?, set,
}
use mathlib.Core.Path.{subst}
use learning_cpp.Pools.Simple.{Item, ll_remove}
use learning_cpp.Pools.Simple.Threads.{
  Place, Worker, Owner, Pool, Turn, Outcome, Answer, region, work_at, is_waiting, has_freed,
  any_waiting, pushed, push_at, destory_at, step, run, run-cons, move, new_worker, create_loop,
  create,
}

-- Before the end of the pool, a worker is not told to end.
abbrev is_alive : Worker → Bool
is_alive w = not w.terminate && not (has_freed w.place)

abbrev all_alive : List Worker → Bool
all_alive [] = true
all_alive (w ∷ ws) = is_alive w && all_alive ws

-- A worker does not wait.
abbrev busy : List Worker → Bool
busy [] = false
busy (w ∷ ws) = not (is_waiting w.place) || busy ws

abbrev none_left : Option ℕ → Bool
none_left none = true
none_left (some job) = false

abbrev no_worker : List Worker → Bool
no_worker [] = true
no_worker (w ∷ ws) = false

-- There is no job, or a worker that will look for it, or no worker at all.
record IsServed (p : Pool) : Type 0 where
  alive : all_alive p.workers ≡ true
  served : (none_left p.jobs.list || (busy p.workers || no_worker p.workers)) ≡ true

all_alive-set :
    (ws : List Worker) (i : ℕ) (w : Worker)
    → all_alive ws ≡ true
    → is_alive w ≡ true
    → all_alive (set ws i w) ≡ true
all_alive-set [] i w h k = refl
all_alive-set (v ∷ ws) zero w h k = ground arith
all_alive-set (v ∷ ws) (suc i) w h k = ground (arith, all_alive-set ws i w)

is_alive-get :
    (ws : List Worker) (i : ℕ) (w : Worker)
    → get_elem? ws i ≡ some w
    → all_alive ws ≡ true
    → is_alive w ≡ true
is_alive-get [] i w e h = absurd (cc)
is_alive-get (v ∷ ws) zero w e h = ground arith
is_alive-get (v ∷ ws) (suc i) w e h = ground (arith, is_alive-get ws i w)

busy-set :
    (ws : List Worker) (i : ℕ) (w v : Worker)
    → get_elem? ws i ≡ some v
    → is_waiting w.place ≡ false
    → busy (set ws i w) ≡ true
busy-set [] i w v e h = absurd (cc)
busy-set (u ∷ ws) zero w v e h = ground arith
busy-set (u ∷ ws) (suc i) w v e h = ground (arith, busy-set ws i w v)

busy-any_waiting : (ws : List Worker) → any_waiting ws ≡ false → (busy ws || no_worker ws) ≡ true
busy-any_waiting [] h = refl
busy-any_waiting (w ∷ ws) h = ground arith

module _ (p : Pool) (i : ℕ) (w : Worker) (alive : all_alive p.workers ≡ true)
    (g : get_elem? p.workers i ≡ some w) where
  own_alive : is_alive w ≡ true
  own_alive = is_alive-get p.workers i w g alive

  IsServed-region : (l : Option ℕ) → p.jobs.list ≡ l → IsServed (region p i w l)
  unfolding region
  IsServed-region none e =
      let no_end : w.terminate ≡ false = ground (arith, own_alive) in
      subst IsServed (ap (λ b. move p i w (if b then Place.freed else Place.waiting)) (sym no_end))
        (record {
          alive =
              all_alive-set p.workers i (record w { place = Place.waiting }) alive
                (ground (arith, no_end));
          served = ground (arith, e);
        })
  IsServed-region (some job) e =
      let no_end : w.terminate ≡ false = ground (arith, own_alive) in
      subst IsServed
        (ap
          (λ b. if b then move p i w Place.freed else record (move p i w (Place.running job)) {
            jobs = ll_remove job p.jobs;
            taken = p.taken ++ job ∷ [];
          })
          (sym no_end))
        (record {
          alive =
              all_alive-set p.workers i (record w { place = Place.running job }) alive
                (ground (arith, no_end));
          served =
              ground (arith, busy-set p.workers i (record w { place = Place.running job }) w g);
        })

  IsServed-work : (p' : Pool) (place : Place) → work_at p i w place ≡ Outcome.goes p' → IsServed p'
  unfolding work_at
  IsServed-work p' Place.locking e =
      let same : region p i w p.jobs.list ≡ p' = ground arith in
      subst IsServed same (IsServed-region p.jobs.list refl)
  IsServed-work p' (Place.running job) e =
      let same : move p i w Place.locking ≡ p' = ground arith in
      subst IsServed same (record {
        alive =
            all_alive-set p.workers i (record w { place = Place.locking }) alive
              (ground (arith, own_alive));
        served = ground (arith, busy-set p.workers i (record w { place = Place.locking }) w g);
      })
  IsServed-work p' Place.waiting e = absurd (ground arith)
  IsServed-work p' Place.freed e = absurd (ground arith)

-- A push wakes a worker, or none waits.
IsServed-push :
    (p p' : Pool) (job i : ℕ)
    → IsServed p
    → push_at p job i Owner.idle ≡ Outcome.goes p'
    → IsServed p'
unfolding push_at
IsServed-push p p' job i h e = elim (Option-cases (get_elem? p.workers i)) [
  | inl f ↦ elim (Bool-cases (any_waiting p.workers)) [
    | inl k ↦ absurd (ground arith)
    | inr k ↦
        let same : pushed p job ≡ p' = ground arith in
        subst IsServed same
          (record { alive = h.alive; served = ground (arith, busy-any_waiting p.workers) })
  ]
  | inr (w, f) ↦ elim (Bool-cases (is_waiting w.place)) [
    | inl k ↦
        let same : move (pushed p job) i w Place.locking ≡ p' = ground arith in
        subst IsServed same (record {
          alive =
              all_alive-set p.workers i (record w { place = Place.locking }) h.alive
                (ground (arith, is_alive-get p.workers i w f h.alive));
          served = ground (arith, busy-set p.workers i (record w { place = Place.locking }) w f);
        })
    | inr k ↦ elim (Bool-cases (any_waiting p.workers)) [
      | inl a ↦ absurd (ground arith)
      | inr a ↦
          let same : pushed p job ≡ p' = ground arith in
          subst IsServed same
            (record { alive = h.alive; served = ground (arith, busy-any_waiting p.workers) })
    ]
  ]
]

owner_work :
    (p p' : Pool) (i : ℕ) (w : Worker) (place : Place)
    → work_at p i w place ≡ Outcome.goes p'
    → p'.owner ≡ Owner.idle
    → p.owner ≡ Owner.idle
unfolding work_at region
owner_work p p' i w place e o = ground arith

idle_push :
    (p p' : Pool) (job i : ℕ) → push_at p job i p.owner ≡ Outcome.goes p' → p.owner ≡ Owner.idle
unfolding push_at
idle_push p p' job i e = ground arith

-- The owner is not past its last push.
IsServed-step :
    (p p' : Pool) (t : Turn)
    → (p.owner ≡ Owner.idle → IsServed p)
    → step p t ≡ Outcome.goes p'
    → p'.owner ≡ Owner.idle
    → IsServed p'
unfolding step destory_at
IsServed-step p p' (Turn.work i) h e o = elim (Option-cases (get_elem? p.workers i)) [
  | inl f ↦ absurd (ground arith)
  | inr (w, f) ↦
      let moved : work_at p i w w.place ≡ Outcome.goes p' = ground arith in
      let k = h (owner_work p p' i w w.place moved o) in
      IsServed-work p i w k.alive f p' w.place moved
]
IsServed-step p p' (Turn.push_task job i) h e o =
    let idle_then = idle_push p p' job i e in
    IsServed-push p p' job i (h idle_then) (ap (push_at p job i) (sym idle_then) ∙ e)
IsServed-step p p' Turn.destory h e o = absurd (ground arith)
IsServed-step p p' Turn.destory_on h e o = absurd (ground arith)

IsServed-run :
    (ts : List Turn) (p p' : Pool)
    → (p.owner ≡ Owner.idle → IsServed p)
    → run p ts ≡ Outcome.goes p'
    → p'.owner ≡ Owner.idle
    → IsServed p'
unfolding run
IsServed-run [] p p' h e o =
    let same : p ≡ p' = ground arith in subst IsServed same (h (ground arith))
IsServed-run (t ∷ ts) p p' h e o =
    let (mid, f, g) = run-cons p p' t ts e in
    IsServed-run ts mid p' (λ k. IsServed-step p mid t h f k) g o

all_alive-create_loop :
    (n i : ℕ) (answers : ℕ → Answer) (ws : List Worker)
    → all_alive ws ≡ true
    → all_alive (create_loop n i answers ws).1 ≡ true
unfolding create_loop
all_alive-create_loop zero i answers ws h = h
all_alive-create_loop (suc n) i answers ws h =
    let rest = all_alive-create_loop n (i + 1) answers (new_worker ∷ ws) (ground arith) in
    ground arith

-- A worker that does not wait makes a turn.
pub place_moves :
    (p : Pool) (i : ℕ) (w : Worker) (place : Place)
    → is_waiting place ≡ false
    → has_freed place ≡ false
    → (p' : Pool) × (work_at p i w place ≡ Outcome.goes p')
unfolding work_at
place_moves p i w Place.locking h k = (_, refl)
place_moves p i w (Place.running job) h k = (_, refl)
place_moves p i w Place.waiting h k = absurd (cc)
place_moves p i w Place.freed h k = absurd (cc)

find_busy :
    (ws : List Worker)
    → busy ws ≡ true
    → (i : ℕ) × (w : Worker) × (get_elem? ws i ≡ some w) × (is_waiting w.place ≡ false)
find_busy [] h = absurd (cc)
find_busy (w ∷ ws) h = elim (Bool-cases (is_waiting w.place)) [
  | inl e ↦ let (i, v, g, f) = find_busy ws (ground arith) in (suc i, v, g, f)
  | inr e ↦ (0, w, refl, e)
]

pub step-work :
    (p p' : Pool) (i : ℕ) (w : Worker)
    → get_elem? p.workers i ≡ some w
    → work_at p i w w.place ≡ Outcome.goes p'
    → step p (Turn.work i) ≡ Outcome.goes p'
unfolding step
step-work p p' i w g e = rw (step, g) e

is_no_worker : (ws : List Worker) → no_worker ws ≡ true → ws ≡ []
is_no_worker [] h = refl
is_no_worker (w ∷ ws) h = absurd (cc)

is_none_left : (l : Option ℕ) → none_left l ≡ true → l ≡ none
is_none_left none h = refl
is_none_left (some job) h = absurd (cc)

-- Before the pool is destroyed, under every schedule: there is no job, or there is no worker, or some
-- worker can make a turn, that is, they do not all wait.
pub no_lost_wakeup :
    (num_worker : ℤ) (answers : ℕ → Answer) (m : ℕ → Item) (ts : List Turn) (p : Pool)
    → run (create num_worker answers m).1 ts ≡ Outcome.goes p
    → p.owner ≡ Owner.idle
    → (p.jobs.list ≡ none)
      ⊎ (p.workers ≡ [])
      ⊎ ((i : ℕ) × (p' : Pool) × (step p (Turn.work i) ≡ Outcome.goes p'))
unfolding create
no_lost_wakeup num_worker answers m ts p e o =
    let h =
      IsServed-run ts (create num_worker answers m).1 p
        (λ k. record { alive = all_alive-create_loop _ 0 answers [] refl; served = refl }) e o in
    elim (Bool-cases (none_left p.jobs.list)) [
      | inl k ↦ inl (is_none_left p.jobs.list k)
      | inr k ↦ elim (Bool-cases (busy p.workers)) [
        | inl b ↦
            let (i, w, g, f) = find_busy p.workers b in
            let alive = is_alive-get p.workers i w g h.alive in
            let (p', moved) = place_moves p i w w.place f (ground arith) in
            inr (inr (i, p', step-work p p' i w g moved))
        | inr b ↦ inr (inl (is_no_worker p.workers (ground (arith, h.served))))
      ]
    ]
