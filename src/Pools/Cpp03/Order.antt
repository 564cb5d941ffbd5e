-- ===== src/Pools/Cpp03/Order.antt =====
-- The tasks that the workers take.
use learning_cpp.Prelude.{
  ℕ, ◌≡◌, refl, sym, ap, ◌∙◌, arith, some, List, [], ◌∷◌, ◌++◌, append_assoc, append-nil,
  Option-cases, inl, inr,
}
use learning_cpp.Pools.Cpp03.{
  Pool, Turn, check, work_at, add_at, signal_at, stop_at, broadcast_at, join_at, wake_at, step, run,
  create,
}

-- The tasks that a schedule adds.
abbrev pub tasks_of : List Turn → List ℕ
tasks_of [] = []
tasks_of (Turn.add_task task ∷ ts) = task ∷ tasks_of ts
tasks_of (_ ∷ ts) = tasks_of ts

-- The tasks that were taken and those that wait.
abbrev all_tasks : Pool → List ℕ
all_tasks p = p.taken ++ p.task_queue

all_tasks-check :
    (p : Pool) (i : ℕ) (q : List ℕ) → p.task_queue ≡ q → all_tasks (check p i q) ≡ all_tasks p
unfolding check
all_tasks-check p i [] h = ground arith
all_tasks-check p i (task ∷ rest) h = ground (arith, append_assoc p.taken (task ∷ []) rest)

all_tasks-work : (p p' : Pool) (i : ℕ) → step p (Turn.work i) ≡ some p' → all_tasks p' ≡ all_tasks p
unfolding step work_at
all_tasks-work p p' i e = ground (arith, all_tasks-check p i p.task_queue refl)

all_tasks-step :
    (p p' : Pool) (t : Turn) → step p t ≡ some p' → all_tasks p' ≡ all_tasks p ++ tasks_of (t ∷ [])
unfolding step wake_at add_at signal_at stop_at broadcast_at join_at
all_tasks-step p p' (Turn.work i) e = all_tasks-work p p' i e ∙ sym (append-nil (all_tasks p))
all_tasks-step p p' (Turn.spurious i) e = ground (arith, append-nil (all_tasks p))
all_tasks-step p p' (Turn.add_task x) e = ground (arith, append_assoc p.taken p.task_queue (x ∷ []))
all_tasks-step p p' (Turn.signal i) e = ground (arith, append-nil (all_tasks p))
all_tasks-step p p' Turn.stop e = ground (arith, append-nil (all_tasks p))
all_tasks-step p p' Turn.broadcast e = ground (arith, append-nil (all_tasks p))
all_tasks-step p p' Turn.join e = ground (arith, append-nil (all_tasks p))

tasks_of-cons : (t : Turn) (ts : List Turn) → tasks_of (t ∷ ts) ≡ tasks_of (t ∷ []) ++ tasks_of ts
tasks_of-cons (Turn.add_task task) ts = refl
tasks_of-cons (Turn.work i) ts = refl
tasks_of-cons _ ts = refl

all_tasks-run :
    (ts : List Turn) (p p' : Pool) → run p ts ≡ some p' → all_tasks p' ≡ all_tasks p ++ tasks_of ts
unfolding run
all_tasks-run [] p p' e = ground (arith, append-nil (all_tasks p))
all_tasks-run (t ∷ ts) p p' e = elim (Option-cases (step p t)) [
  | inl f ↦ absurd (ground arith)
  | inr (q, f) ↦
      all_tasks-run ts q p' (ground arith)
      ∙ ap (λ l. l ++ tasks_of ts) (all_tasks-step p q t f)
      ∙ append_assoc (all_tasks p) (tasks_of (t ∷ [])) (tasks_of ts)
      ∙ ap (λ l. all_tasks p ++ l) (sym (tasks_of-cons t ts))
]

-- Under any schedule of a new pool: the tasks that workers have taken, in the order in which they took
-- them, followed by those that still wait, are the added tasks in the order of their adding. So each
-- task is taken at most once, and the first one that waits is the next one.
pub tasks_in_order :
    (thread_num : ℕ) (turns : List Turn) (p : Pool)
    → run (create thread_num) turns ≡ some p
    → p.taken ++ p.task_queue ≡ tasks_of turns
tasks_in_order thread_num turns p e = all_tasks-run turns (create thread_num) p e
