-- ===== src/Pools/Simple/Threads/Ends.antt =====
-- What comes of the workers after nThreadPoolDestory of zl_threadpool/01_simple_threadPool/threadPool.cpp.
use learning_cpp.Prelude.{
  ℕ, zero, suc, ◌+◌, ◌*◌, ◌≤◌, ◌≡◌, refl, ap, ◌∙◌, arith, Bool, true, false, ◌&&◌, ◌⊎◌, inl, inr,
  some, Option-cases, Bool-cases, ℤ, List, [], ◌∷◌, length, get_elem?, set,
}
use mathlib.Core.Path.{subst}
use learning_cpp.Pools.Simple.{Item}
use learning_cpp.Pools.Simple.Threads.{
  Place, Worker, Owner, Pool, Turn, Outcome, Answer, work_at, is_waiting, has_freed, push_at,
  destory_at, step, run, run-cons, create,
}
use learning_cpp.Pools.Simple.Threads.Wakeups.{place_moves, step-work}
use learning_cpp.Pools.Simple.Threads.Marks.{
  all_ending, IsMarked, all_ending-get, IsMarked-work, IsMarked-run, work_leaves, work_ending,
}

abbrev pub all_freed : List Worker → Bool
all_freed [] = true
all_freed (w ∷ ws) = has_freed w.place && all_freed ws

-- The turns that a worker has left.
abbrev left : Place → ℕ
left Place.locking = 1
left (Place.running job) = 2
left place = 0

abbrev all_left : List Worker → ℕ
all_left [] = 0
all_left (w ∷ ws) = left w.place + all_left ws

left-le : (place : Place) → left place ≤ 2
left-le Place.locking = omega arith
left-le (Place.running job) = omega arith
left-le Place.waiting = omega arith
left-le Place.freed = omega arith

all_left-le : (ws : List Worker) → all_left ws ≤ 2 * length ws
all_left-le [] = omega arith
all_left-le (w ∷ ws) = omega (arith, left-le w.place, all_left-le ws)

all_left-set :
    (ws : List Worker) (i : ℕ) (w v : Worker)
    → get_elem? ws i ≡ some w
    → all_left (set ws i v) + left w.place ≡ all_left ws + left v.place
all_left-set [] i w v e = absurd (cc)
all_left-set (u ∷ ws) zero w v e = ground arith
all_left-set (u ∷ ws) (suc i) w v e = omega (arith, all_left-set ws i w v e)

-- Each turn after the end of nThreadPoolDestory is a worker's, and leaves one turn less.
Ending-step :
    (p p' : Pool) (t : Turn)
    → p.owner ≡ Owner.destroyed
    → all_ending p.workers ≡ true
    → step p t ≡ Outcome.goes p'
    → (p'.owner ≡ Owner.destroyed)
      × (all_ending p'.workers ≡ true)
      × (all_left p'.workers + 1 ≡ all_left p.workers)
unfolding step push_at destory_at
Ending-step p p' (Turn.work i) o h e = elim (Option-cases (get_elem? p.workers i)) [
  | inl g ↦ absurd (ground arith)
  | inr (w, g) ↦
      let moved : work_at p i w w.place ≡ Outcome.goes p' = ground arith in
      let (_, _, same) = work_leaves p p' i w g w.place moved in
      let (ends, _) = all_ending-get p.workers i w g h in
      let one_less : all_left p'.workers + 1 ≡ all_left p.workers =
        elim (work_ending p p' i w g w.place ends moved) [
          | inl (at_mutex, ws) ↦ omega (
            arith,
            ap all_left ws,
            ap left at_mutex,
            all_left-set p.workers i w (record w { place = Place.freed }) g,
          )
          | inr (ws, (job, in_job)) ↦ omega (
            arith,
            ap all_left ws,
            ap left in_job,
            all_left-set p.workers i w (record w { place = Place.locking }) g,
          )
        ] in
      (same ∙ o, IsMarked-work p p' i w Owner.destroyed g moved h, one_less)
]
Ending-step p p' (Turn.push_task job i) o h e = absurd (ground arith)
Ending-step p p' Turn.destory o h e = absurd (ground arith)
Ending-step p p' Turn.destory_on o h e = absurd (ground arith)

Ending-run :
    (ts : List Turn) (p p' : Pool)
    → p.owner ≡ Owner.destroyed
    → all_ending p.workers ≡ true
    → run p ts ≡ Outcome.goes p'
    → (p'.owner ≡ Owner.destroyed)
      × (all_ending p'.workers ≡ true)
      × (all_left p'.workers + length ts ≡ all_left p.workers)
unfolding run
Ending-run [] p p' o h e =
    let same : p ≡ p' = ground arith in
    subst
      (λ q.
        (q.owner ≡ Owner.destroyed)
        × (all_ending q.workers ≡ true)
        × (all_left q.workers + 0 ≡ all_left p.workers))
      same (o, h, omega arith)
Ending-run (t ∷ ts) p p' o h e =
    let (mid, f, g) = run-cons p p' t ts e in
    let (o', h', one) = Ending-step p mid t o h f in
    let (o'', h'', rest) = Ending-run ts mid p' o' h' g in (o'', h'', omega (arith, one, rest))

find_left :
    (ws : List Worker)
    → all_ending ws ≡ true
    → (all_freed ws ≡ true)
      ⊎ ((i : ℕ) × (w : Worker) × (get_elem? ws i ≡ some w)
          × (is_waiting w.place ≡ false)
          × (has_freed w.place ≡ false))
find_left [] h = inl refl
find_left (w ∷ ws) h = elim (Bool-cases (has_freed w.place)) [
  | inr e ↦ inr (0, w, refl, ground arith, e)
  | inl e ↦ elim (find_left ws (ground arith)) [
    | inl f ↦ inl (ground arith)
    | inr (i, v, g, a, b) ↦ inr (suc i, v, g, a, b)
  ]
]

-- After nThreadPoolDestory has returned, under every schedule: at most two turns for each worker are made,
-- and either all workers are freed or some worker can make another turn. So none of them waits for good,
-- whatever jobs are left.
pub destory_ends :
    (num_worker : ℤ) (answers : ℕ → Answer) (m : ℕ → Item) (ts us : List Turn) (p p' : Pool)
    → run (create num_worker answers m).1 ts ≡ Outcome.goes p
    → p.owner ≡ Owner.destroyed
    → run p us ≡ Outcome.goes p'
    → (length us ≤ 2 * length p.workers)
      × ((all_freed p'.workers ≡ true)
          ⊎ ((i : ℕ) × (p'' : Pool) × (step p' (Turn.work i) ≡ Outcome.goes p'')))
unfolding create
destory_ends num_worker answers m ts us p p' e o f =
    let h = IsMarked-run ts (create num_worker answers m).1 p e tt in
    let ending : all_ending p.workers ≡ true = subst (IsMarked p) o h in
    let (_, ending', count) = Ending-run us p p' o ending f in
    (
      omega (arith, count, all_left-le p.workers),
      elim (find_left p'.workers ending') [
        | inl all ↦ inl all
        | inr (i, w, g, a, b) ↦
            let (p'', moved) = place_moves p' i w w.place a b in
            inr (i, p'', step-work p' p'' i w g moved)
      ],
    )
