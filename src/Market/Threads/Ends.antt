-- ===== src/Market/Threads/Ends.antt =====
-- Every run ends, with every item taken once and in order.
use learning_cpp.Prelude.{
  ℕ, zero, suc, ◌+◌, ◌-◌, ◌*◌, ◌≤◌, ◌<◌, ◌≡◌, refl, sym, ap, ◌∙◌, arith, Bool, true, false, some,
  List, [], ◌∷◌, append-nil, Option-cases, Bool-cases, inl, inr, ◌⊎◌, length, get_elem?, set,
  if◌then◌else◌, take, take-append, take-drop-append, ltb,
}
use learning_cpp.Market.Ring.Contents.{contents}
use learning_cpp.Market.Threads.{
  Section, Market, Turn, enter_producer, after_produce, enter_consumer, after_consume, step, run,
  running, main,
}
use learning_cpp.Market.Threads.Invariant.{Inv, Inv-main, Inv-step, Inv-run, items, pending}
use learning_cpp.Market.Threads.Progress.{
  finished, wakeups, all_wakeups, CanMove, in_total, not_stuck, length-items,
}

-- The turns that a section still allows at most.
abbrev producer_weight : Section → ℕ
producer_weight Section.free = 0
producer_weight (Section.entered i) = 3
producer_weight (Section.waiting i) = 2
producer_weight (Section.leaving i) = 1

abbrev consumer_weight : Section → ℕ
consumer_weight Section.free = 3
consumer_weight (Section.entered i) = 2
consumer_weight (Section.waiting i) = 1
consumer_weight (Section.leaving i) = 0

abbrev count_running : List Bool → ℕ
count_running [] = 0
count_running (b ∷ bs) = (if b then 1 else 0) + count_running bs

abbrev producer_left : ℕ → Market → ℕ
producer_left count m =
    4 * (count - m.produced_item_counter) + producer_weight m.producer + count_running m.producers

abbrev consumer_left : ℕ → Market → ℕ
consumer_left count m =
    4 * (count - m.consumed_item_counter) + consumer_weight m.consumer + count_running m.consumers

abbrev left : ℕ → Market → ℕ
left count m = producer_left count m + consumer_left count m

count_running-set :
    (bs : List Bool) (i : ℕ)
    → get_elem? bs i ≡ some true
    → count_running (set bs i false) + 1 ≡ count_running bs
count_running-set [] i e = absurd (ground arith)
count_running-set (b ∷ bs) zero e = ground arith
count_running-set (b ∷ bs) (suc i) e = ground (arith, count_running-set bs i e)

module _ (size count : ℕ) (m m' : Market) (k : Inv size count m) where
  left-step :
      (t : Turn) → step size count m t ≡ some m' → left count m' + 1 ≤ left count m + 2 * wakeups t
  unfolding step enter_producer after_produce enter_consumer after_consume
  left-step (Turn.produce i) e = ground (arith, k.produced_le, count_running-set m.producers i)
  left-step (Turn.consume i) e = ground (arith, k.consumed_le, count_running-set m.consumers i)
  left-step Turn.wake_producer e = ground arith
  left-step Turn.wake_consumer e = ground arith

left-run :
    (size count : ℕ) (m m' : Market) (ts : List Turn)
    → Inv size count m
    → run size count m ts ≡ some m'
    → left count m' + length ts ≤ left count m + 2 * all_wakeups ts
unfolding run
left-run size count m m' [] k e = ground arith
left-run size count m m' (t ∷ ts) k e = elim (Option-cases (step size count m t)) [
  | inl f ↦ absurd (ground arith)
  | inr (m1, f) ↦ omega (
    arith,
    left-step size count m m1 k t f,
    left-run size count m1 m' ts (Inv-step size count m m1 t k f) (ground arith),
  )
]

count_running_lem : (n : ℕ) → count_running (running n) ≡ n
count_running_lem zero = refl
count_running_lem (suc n) = omega (arith, count_running_lem n)

take-items : (n j : ℕ) → j ≤ n → take j (items n) ≡ items j
unfolding items
take-items zero zero h = refl
take-items zero (suc j) h = absurd (omega arith)
take-items (suc n) j h = elim (Bool-cases (ltb n j)) [
  | inr e ↦
      let below : j ≤ n = ground arith in
      take-drop-append j 0 (items n) (suc n ∷ []) (omega (arith, length-items n))
      ∙ take-items n j below
  | inl e ↦
      let last : length (items (suc n)) ≡ j = ground (arith, length-items (suc n)) in
      let here : j ≡ suc n = ground arith in
      ap (λ i. take i (items (suc n))) (sym last)
      ∙ ap (take (length (items (suc n)))) (sym (append-nil (items (suc n))))
      ∙ take-append (items (suc n)) []
      ∙ ap items (sym here)
]

module _ (size count : ℕ) (buffer : List ℕ) (producers consumers : ℕ)
    (buffer_size : length buffer ≡ size) (big : 1 < size) (one_producer : 0 < producers)
    (one_consumer : 0 < consumers) (turns : List Turn) (m : Market)
    (ran : run size count (main buffer producers consumers) turns ≡ some m) where
  reached : Inv size count m
  reached =
      let begun =
        Inv-main size count buffer producers consumers buffer_size (omega arith) one_producer
          one_consumer in
      Inv-run size count (main buffer producers consumers) m turns begun ran

  -- Whatever the schedule: the items that the consumers have taken are 1, 2, 3 and so on, in order and
  -- each once.
  pub taken_in_order : m.taken ≡ items (length m.taken)
  taken_in_order =
      let n = m.produced_item_counter - pending m.producer in
      sym (take-append m.taken (contents m.ring))
      ∙ ap (take (length m.taken)) reached.in_order
      ∙ take-items n (length m.taken) (omega (arith, in_total size count m reached big))

  -- Whatever the schedule: the threads take at most `8 * count + 3` turns and one for each thread to
  -- leave, and two for each spurious wakeup; and if no thread can move without one, all have left
  -- their loops and the consumers have taken the items from 1 to `count`, in order and each once. The
  -- array has more than one place, and there are a producer and a consumer at least.
  pub run_ends :
      (length turns ≤ 8 * count + 3 + producers + consumers + 2 * all_wakeups turns)
      × ((finished m ≡ true) × (m.taken ≡ items count) ⊎ CanMove size count m)
  run_ends =
      let begun =
        Inv-main size count buffer producers consumers buffer_size (omega arith) one_producer
          one_consumer in
      let bound = left-run size count (main buffer producers consumers) m turns begun ran in
      (
        omega (arith, bound, count_running_lem producers, count_running_lem consumers),
        elim (not_stuck size count m reached big) [
          | inr c ↦ inr c
          | inl f ↦
              let all : length m.taken ≡ count =
                ground (arith, reached.counted, reached.consumed_le, reached.consumers_done) in
              inl (f, taken_in_order ∙ ap items all)
        ],
      )
