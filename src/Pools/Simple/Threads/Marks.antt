-- ===== src/Pools/Simple/Threads/Marks.antt =====
-- How far nThreadPoolDestory of zl_threadpool/01_simple_threadPool/threadPool.cpp is, and what a worker does.
use learning_cpp.Prelude.{
  ℕ, zero, suc, ◌+◌, ◌≡◌, refl, sym, arith, Bool, true, false, not, ◌&&◌, ◌⊎◌, inl, inr, none, some,
  Option-cases, Bool-cases, List, [], ◌∷◌, map, get_elem?, set,
}
use mathlib.Core.Path.{subst}
use learning_cpp.Pools.Simple.Threads.{
  Place, Worker, Owner, Pool, Turn, Outcome, region, work_at, is_waiting, has_freed, push_at,
  destory_at, step, run, run-cons, woken,
}

-- The first `n` workers are told to end.
abbrev pub marked : ℕ → List Worker → Bool
marked zero ws = true
marked (suc n) [] = true
marked (suc n) (w ∷ ws) = w.terminate && marked n ws

abbrev pub all_ending : List Worker → Bool
all_ending [] = true
all_ending (w ∷ ws) = w.terminate && (not (is_waiting w.place) && all_ending ws)

-- How far nThreadPoolDestory is.
abbrev pub IsMarked : Pool → Owner → Type 0
IsMarked p Owner.idle = Unit
IsMarked p (Owner.marking i) = marked i p.workers ≡ true
IsMarked p (Owner.advancing i) = marked (suc i) p.workers ≡ true
IsMarked p Owner.destroyed = all_ending p.workers ≡ true

marked-set :
    (n : ℕ) (ws : List Worker) (i : ℕ) (w v : Worker)
    → get_elem? ws i ≡ some w
    → v.terminate ≡ w.terminate
    → marked n ws ≡ true
    → marked n (set ws i v) ≡ true
marked-set zero ws i w v g e h = refl
marked-set (suc n) [] i w v g e h = refl
marked-set (suc n) (u ∷ ws) zero w v g e h = ground arith
marked-set (suc n) (u ∷ ws) (suc i) w v g e h = ground (arith, marked-set n ws i w v)

marked-next :
    (ws : List Worker) (i : ℕ) (v : Worker)
    → v.terminate ≡ true
    → marked i ws ≡ true
    → marked (suc i) (set ws i v) ≡ true
marked-next [] zero v e h = refl
marked-next [] (suc i) v e h = refl
marked-next (u ∷ ws) zero v e h = ground arith
marked-next (u ∷ ws) (suc i) v e h = ground (arith, marked-next ws i v)

all_ending-woken :
    (i : ℕ) (ws : List Worker)
    → get_elem? ws i ≡ none
    → marked i ws ≡ true
    → all_ending (map woken ws) ≡ true
all_ending-woken i [] g h = refl
all_ending-woken zero (w ∷ ws) g h = absurd (cc)
all_ending-woken (suc i) (w ∷ ws) g h = ground (arith, all_ending-woken i ws)

all_ending-set :
    (ws : List Worker) (i : ℕ) (v : Worker)
    → v.terminate ≡ true
    → is_waiting v.place ≡ false
    → all_ending ws ≡ true
    → all_ending (set ws i v) ≡ true
all_ending-set [] i v e f h = refl
all_ending-set (u ∷ ws) zero v e f h = ground arith
all_ending-set (u ∷ ws) (suc i) v e f h = ground (arith, all_ending-set ws i v)

pub all_ending-get :
    (ws : List Worker) (i : ℕ) (w : Worker)
    → get_elem? ws i ≡ some w
    → all_ending ws ≡ true
    → (w.terminate ≡ true) × (is_waiting w.place ≡ false)
all_ending-get [] i w g h = absurd (cc)
all_ending-get (u ∷ ws) zero w g h = ground arith
all_ending-get (u ∷ ws) (suc i) w g h = all_ending-get ws i w g (ground arith)

module _ (p p' : Pool) (i : ℕ) (w : Worker) (g : get_elem? p.workers i ≡ some w) where
  -- What a worker's turn leaves of its place.
  pub work_leaves :
      (place : Place)
      → work_at p i w place ≡ Outcome.goes p'
      → (next : Place) × (p'.workers ≡ set p.workers i (record w { place = next }))
        × (p'.owner ≡ p.owner)
  unfolding work_at region
  work_leaves Place.locking e = elim (Bool-cases w.terminate) [
    | inl f ↦ (Place.freed, ground arith, ground arith)
    | inr f ↦ elim (Option-cases p.jobs.list) [
      | inl k ↦ (Place.waiting, ground arith, ground arith)
      | inr (job, k) ↦ (Place.running job, ground arith, ground arith)
    ]
  ]
  work_leaves (Place.running job) e = (Place.locking, ground arith, ground arith)
  work_leaves Place.waiting e = absurd (ground arith)
  work_leaves Place.freed e = absurd (ground arith)

  -- A worker that is told to end goes to the mutex, and there it ends.
  pub work_ending :
      (place : Place)
      → w.terminate ≡ true
      → work_at p i w place ≡ Outcome.goes p'
      → ((place ≡ Place.locking)
          × (p'.workers ≡ set p.workers i (record w { place = Place.freed })))
        ⊎ ((p'.workers ≡ set p.workers i (record w { place = Place.locking }))
            × ((job : ℕ) × (place ≡ Place.running job)))
  unfolding work_at region
  work_ending Place.locking t e = inl (refl, ground arith)
  work_ending (Place.running job) t e = inr (ground arith, (job, refl))
  work_ending Place.waiting t e = absurd (ground arith)
  work_ending Place.freed t e = absurd (ground arith)

suc_is : (i : ℕ) → i + 1 ≡ suc i
suc_is i = omega arith

pub IsMarked-work :
    (p p' : Pool) (i : ℕ) (w : Worker) (o : Owner)
    → get_elem? p.workers i ≡ some w
    → work_at p i w w.place ≡ Outcome.goes p'
    → IsMarked p o
    → IsMarked p' o
IsMarked-work p p' i w Owner.idle g e h = tt
IsMarked-work p p' i w (Owner.marking n) g e h =
    let (next, ws, _) = work_leaves p p' i w g w.place e in
    rw ws (marked-set n p.workers i w (record w { place = next }) g refl h)
IsMarked-work p p' i w (Owner.advancing n) g e h =
    let (next, ws, _) = work_leaves p p' i w g w.place e in
    rw ws (marked-set (suc n) p.workers i w (record w { place = next }) g refl h)
IsMarked-work p p' i w Owner.destroyed g e h =
    let (ends, awake) = all_ending-get p.workers i w g h in
    elim (work_ending p p' i w g w.place ends e) [
      | inl (_, ws) ↦
          rw ws (all_ending-set p.workers i (record w { place = Place.freed }) ends refl h)
      | inr (ws, _) ↦
          rw ws (all_ending-set p.workers i (record w { place = Place.locking }) ends refl h)
    ]

IsMarked-destory :
    (p p' : Pool) (o : Owner)
    → destory_at p o ≡ Outcome.goes p'
    → IsMarked p o
    → IsMarked p' p'.owner
unfolding destory_at
IsMarked-destory p p' Owner.idle e h = absurd (ground arith)
IsMarked-destory p p' (Owner.marking i) e h = elim (Option-cases (get_elem? p.workers i)) [
  | inl g ↦
      let same : record p { workers = map woken p.workers; owner = Owner.destroyed } ≡ p' =
        ground arith in
      subst (λ q. IsMarked q q.owner) same (all_ending-woken i p.workers g h)
  | inr (w, g) ↦ elim (Bool-cases (has_freed w.place)) [
    | inl f ↦ absurd (ground arith)
    | inr f ↦
        let same : record p {
          workers = set p.workers i (record w { terminate = true });
          owner = Owner.advancing i;
        }
            ≡ p' =
          ground arith in
        subst (λ q. IsMarked q q.owner) same
          (marked-next p.workers i (record w { terminate = true }) refl h)
  ]
]
IsMarked-destory p p' (Owner.advancing i) e h = elim (Option-cases (get_elem? p.workers i)) [
  | inl g ↦ absurd (ground arith)
  | inr (w, g) ↦ elim (Bool-cases (has_freed w.place)) [
    | inl f ↦ absurd (ground arith)
    | inr f ↦
        let same : record p { owner = Owner.marking (i + 1) } ≡ p' = ground arith in
        subst (λ q. IsMarked q q.owner) same (rw (suc_is i) h)
  ]
]
IsMarked-destory p p' Owner.destroyed e h = absurd (ground arith)

IsMarked-step :
    (p p' : Pool) (t : Turn)
    → step p t ≡ Outcome.goes p'
    → IsMarked p p.owner
    → IsMarked p' p'.owner
unfolding step push_at
IsMarked-step p p' (Turn.work i) e h = elim (Option-cases (get_elem? p.workers i)) [
  | inl g ↦ absurd (ground arith)
  | inr (w, g) ↦
      let moved : work_at p i w w.place ≡ Outcome.goes p' = ground arith in
      let (_, _, same) = work_leaves p p' i w g w.place moved in
      subst (IsMarked p') (sym same) (IsMarked-work p p' i w p.owner g moved h)
]
IsMarked-step p p' (Turn.push_task job i) e h =
    let idle : p'.owner ≡ Owner.idle = ground arith in subst (IsMarked p') (sym idle) tt
IsMarked-step p p' Turn.destory e h =
    let begun : p'.owner ≡ Owner.marking 0 = ground arith in subst (IsMarked p') (sym begun) refl
IsMarked-step p p' Turn.destory_on e h = IsMarked-destory p p' p.owner e h

pub IsMarked-run :
    (ts : List Turn) (p p' : Pool)
    → run p ts ≡ Outcome.goes p'
    → IsMarked p p.owner
    → IsMarked p' p'.owner
unfolding run
IsMarked-run [] p p' e h =
    let same : p ≡ p' = ground arith in subst (λ q. IsMarked q q.owner) same h
IsMarked-run (t ∷ ts) p p' e h =
    let (mid, f, g) = run-cons p p' t ts e in IsMarked-run ts mid p' g (IsMarked-step p mid t f h)
