-- ===== src/Pools/Simple/Threads/Jobs.antt =====
-- The jobs of zl_threadpool/01_simple_threadPool/threadPool.cpp: which are taken, and in which order.
use learning_cpp.Prelude.{
  not, Bool, false, ℕ, suc, ◌+◌, ◌≤◌, ◌==◌, ◌≡◌, ◌≢◌, refl, sym, ap, ◌∙◌, arith, inl, inr, Option,
  none, some, Option-cases, Bool-cases, if◌then◌else◌, List, [], ◌∷◌, ◌++◌, ℤ, All, get_elem?,
}
use mathlib.Core.Path.{subst}
use learning_cpp.Pools.Simple.{Item, ll_insert}
use learning_cpp.Pools.Simple.Links.{IsList, ll_insert-IsList}
use learning_cpp.Pools.Simple.Unlink.{ll_remove-IsList}
use learning_cpp.Pools.Simple.Threads.{
  Place, Worker, Pool, Turn, Outcome, region, work_at, push_at, destory_at, run-cons, create,
  Answer, step, run, move,
}

abbrev pub pushes_of : Turn → List ℕ
pushes_of (Turn.push_task job i) = job ∷ []
pushes_of t = []

abbrev pub pushes : List Turn → List ℕ
pushes [] = []
pushes (t ∷ ts) = pushes_of t ++ pushes ts

unfoldable pub count : ℕ → List ℕ → ℕ
count j [] = 0
count j (x ∷ xs) = if x == j then suc (count j xs) else count j xs

-- A stack of jobs, and what was taken from it.
pub record Stack : Type 0 where
  pub jobs : List ℕ
  pub taken : List ℕ

abbrev pub take_first : Stack → Stack
take_first s = elim s.jobs [
  | [] ↦ s
  | job ∷ rest ↦ record { jobs = rest; taken = s.taken ++ job ∷ [] }
]

-- Whether a worker comes to the mutex for a job.
abbrev pub wants_at : Worker → Place → Bool
wants_at w Place.locking = not w.terminate
wants_at w place = false

-- What a turn does to the stack: a push puts its job on top, and a worker that comes for a job takes the
-- top one, if there is one.
unfoldable pub stack_turn : Pool → Turn → Stack → Stack
stack_turn p (Turn.push_task job i) s = record s { jobs = job ∷ s.jobs }
stack_turn p (Turn.work i) s = elim (get_elem? p.workers i) [
  | none ↦ s
  | some w ↦ if wants_at w w.place then take_first s else s
]
stack_turn p t s = s

-- What a schedule does to it, turn by turn.
unfoldable pub stack_run : Pool → List Turn → Stack → Stack
stack_run p [] s = s
stack_run p (t ∷ ts) s = elim (step p t) [
  | Outcome.blocks ↦ s
  | Outcome.faults ↦ s
  | Outcome.goes p' ↦ stack_run p' ts (stack_turn p t s)
]

-- The linked list has the jobs of the stack, and the same were taken.
abbrev pub Holds : Pool → Stack → Type 0
Holds p s = IsList p.jobs s.jobs × (p.taken ≡ s.taken)

Holds-same :
    (p p' : Pool) (s : Stack) → Holds p s → p'.jobs ≡ p.jobs → p'.taken ≡ p.taken → Holds p' s
Holds-same p p' s h e f = (subst (λ q. IsList q s.jobs) (sym e) h.0, f ∙ h.1)

abbrev of : List ℕ → List ℕ → Stack
of xs log = record { jobs = xs; taken = log }

Holds-region :
    (p : Pool) (i : ℕ) (w : Worker) (l : Option ℕ) (xs log : List ℕ)
    → p.jobs.list ≡ l
    → Holds p (of xs log)
    → Holds (region p i w l) (if not w.terminate then take_first (of xs log) else of xs log)
unfolding region
Holds-region p i w none [] log e h = elim (Bool-cases w.terminate) [
  | inl f ↦ rw f (Holds-same p (move p i w Place.freed) (of [] log) h refl refl)
  | inr f ↦ rw f (Holds-same p (move p i w Place.waiting) (of [] log) h refl refl)
]
Holds-region p i w none (x ∷ xs) log e h = absurd (cc (e, h.0.0.0))
Holds-region p i w (some job) [] log e h = absurd (cc (e, h.0.0))
Holds-region p i w (some job) (x ∷ xs) log e h =
    let same : job ≡ x = ground (arith, h.0.0.0) in
    elim (Bool-cases w.terminate) [
      | inl f ↦ rw (region, f) (Holds-same p (move p i w Place.freed) (of (x ∷ xs) log) h refl refl)
      | inr f ↦
          rw (region, f, same) ((ll_remove-IsList x p.jobs [] xs h.0).0, ap (λ t. t ++ x ∷ []) h.1)
    ]

Holds-work :
    (p p' : Pool) (i : ℕ) (w : Worker) (place : Place) (xs log : List ℕ)
    → work_at p i w place ≡ Outcome.goes p'
    → Holds p (of xs log)
    → Holds p' (if wants_at w place then take_first (of xs log) else of xs log)
unfolding work_at
Holds-work p p' i w Place.locking xs log e h =
    let same : region p i w p.jobs.list ≡ p' = ground arith in
    subst (λ q. Holds q (if not w.terminate then take_first (of xs log) else of xs log)) same
      (Holds-region p i w p.jobs.list xs log refl h)
Holds-work p p' i w (Place.running job) xs log e h =
    Holds-same p p' (of xs log) h (ground arith) (ground arith)
Holds-work p p' i w Place.waiting xs log e h = absurd (ground arith)
Holds-work p p' i w Place.freed xs log e h = absurd (ground arith)

Holds-push :
    (p p' : Pool) (job i : ℕ) (xs log : List ℕ)
    → All (λ x. x ≢ job) xs
    → push_at p job i p.owner ≡ Outcome.goes p'
    → Holds p (of xs log)
    → Holds p' (of (job ∷ xs) log)
unfolding push_at
Holds-push p p' job i xs log away e h =
    let jobs_same : p'.jobs ≡ ll_insert job p.jobs = ground arith in
    let taken_same : p'.taken ≡ p.taken = ground arith in
    (
      subst (λ q. IsList q (job ∷ xs)) (sym jobs_same) (ll_insert-IsList job p.jobs xs away h.0),
      taken_same ∙ h.1,
    )

Holds-step :
    (p p' : Pool) (t : Turn) (xs log : List ℕ)
    → All (λ job. All (λ x. x ≢ job) xs) (pushes_of t)
    → step p t ≡ Outcome.goes p'
    → Holds p (of xs log)
    → Holds p' (stack_turn p t (of xs log))
unfolding step destory_at stack_turn
Holds-step p p' (Turn.work i) xs log away e h = elim (Option-cases (get_elem? p.workers i)) [
  | inl f ↦ absurd (ground arith)
  | inr (w, f) ↦
      let moved : work_at p i w w.place ≡ Outcome.goes p' = ground arith in
      rw (stack_turn, f) (Holds-work p p' i w w.place xs log moved h)
]
Holds-step p p' (Turn.push_task job i) xs log away e h = Holds-push p p' job i xs log away.0 e h
Holds-step p p' Turn.destory xs log away e h =
    Holds-same p p' (of xs log) h (ground arith) (ground arith)
Holds-step p p' Turn.destory_on xs log away e h =
    Holds-same p p' (of xs log) h (ground arith) (ground arith)

count-append : (j : ℕ) (xs ys : List ℕ) → count j (xs ++ ys) ≡ count j xs + count j ys
unfolding count
count-append j [] ys = omega arith
count-append j (x ∷ xs) ys = ground (arith, count-append j xs ys)

absent : (job : ℕ) (xs : List ℕ) → count job xs ≡ 0 → All (λ x. x ≢ job) xs
unfolding count
absent job [] h = tt
absent job (x ∷ xs) h = elim (Bool-cases (x == job)) [
  | inl e ↦ absurd (ground arith)
  | inr e ↦ ((λ same. ground arith), absent job xs (ground arith))
]

count_one : (job : ℕ) (xs : List ℕ) → count job (job ∷ xs) ≡ suc (count job xs)
unfolding count
count_one job xs = ground arith

-- No job is pushed that is in the list already.
abbrev pub Once : List Turn → List ℕ → Type 0
Once ts xs = (j : ℕ) → count j (pushes ts) + count j xs ≤ 1

fresh :
    (t : Turn) (ts : List Turn) (xs : List ℕ)
    → Once (t ∷ ts) xs
    → All (λ job. All (λ x. x ≢ job) xs) (pushes_of t)
fresh (Turn.work i) ts xs h = tt
fresh (Turn.push_task job i) ts xs h =
    (absent job xs (omega (arith, h job, count_one job (pushes ts))), tt)
fresh Turn.destory ts xs h = tt
fresh Turn.destory_on ts xs h = tt

count-tail : (j x : ℕ) (xs : List ℕ) → count j xs ≤ count j (x ∷ xs)
unfolding count
count-tail j x xs = ground arith

count-take_first : (j : ℕ) (xs log : List ℕ) → count j (take_first (of xs log)).jobs ≤ count j xs
count-take_first j [] log = omega arith
count-take_first j (x ∷ xs) log = count-tail j x xs

-- What is on the stack after a turn was there, or was pushed.
count-stack_turn :
    (p : Pool) (t : Turn) (j : ℕ) (xs log : List ℕ)
    → count j (stack_turn p t (of xs log)).jobs ≤ count j (pushes_of t ++ xs)
unfolding stack_turn
count-stack_turn p (Turn.work i) j xs log = elim (Option-cases (get_elem? p.workers i)) [
  | inl f ↦ rw (stack_turn, f) (omega arith)
  | inr (w, f) ↦ elim (Bool-cases (wants_at w w.place)) [
    | inl g ↦ rw (stack_turn, f, g) (count-take_first j xs log)
    | inr g ↦ rw (stack_turn, f, g) (omega arith)
  ]
]
count-stack_turn p (Turn.push_task job i) j xs log = omega arith
count-stack_turn p Turn.destory j xs log = omega arith
count-stack_turn p Turn.destory_on j xs log = omega arith

Once-rest :
    (p : Pool) (t : Turn) (ts : List Turn) (xs log : List ℕ)
    → Once (t ∷ ts) xs
    → Once ts (stack_turn p t (of xs log)).jobs
Once-rest p t ts xs log h j = omega (
  arith,
  h j,
  count-append j (pushes_of t) (pushes ts),
  count-append j (pushes_of t) xs,
  count-stack_turn p t j xs log,
)

Holds-run :
    (ts : List Turn) (p p' : Pool) (s : Stack)
    → Once ts s.jobs
    → run p ts ≡ Outcome.goes p'
    → Holds p s
    → Holds p' (stack_run p ts s)
unfolding run stack_run
Holds-run [] p p' s once e h = let same : p ≡ p' = ground arith in subst (λ q. Holds q s) same h
Holds-run (t ∷ ts) p p' s once e h =
    let (mid, f, g) = run-cons p p' t ts e in
    rw (stack_run, f)
      (Holds-run ts mid p' (stack_turn p t s) (Once-rest p t ts s.jobs s.taken once) g
        (Holds-step p mid t s.jobs s.taken (fresh t ts s.jobs once) f h))

-- The jobs of a new pool are a stack, under every schedule in which no job is pushed twice: at the end
-- the linked list has what is on a stack, the top first, to which each push of the schedule was done and
-- from which each worker that came to the mutex for a job took the top one, in the order of the
-- schedule's turns; and the workers took what was taken from the stack, in that order.
pub run-stack_run :
    (num_worker : ℤ) (answers : ℕ → Answer) (m : ℕ → Item) (ts : List Turn) (p' : Pool)
    → Once ts []
    → run (create num_worker answers m).1 ts ≡ Outcome.goes p'
    → let s = stack_run (create num_worker answers m).1 ts (record { jobs = []; taken = [] }) in
      IsList p'.jobs s.jobs × (p'.taken ≡ s.taken)
unfolding create
run-stack_run num_worker answers m ts p' once e =
    Holds-run ts (create num_worker answers m).1 p' (of [] []) once e ((refl, tt), refl)
