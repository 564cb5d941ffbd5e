-- ===== src/Market/Threads.antt =====
-- The threads of produce_consume/04: several producers, several consumers and one repository. A turn
-- is what one thread does between two points at which it may lose the processor to another thread that
-- needs the same data: each mutex makes its region one turn, or several if the region waits. The
-- numbers that the source fixes are `size` and `count`, 4 and 10, and the numbers of threads.
pub mod Invariant
pub mod Progress
pub mod Ends
use learning_cpp.Prelude.{
  ℕ, zero, suc, ◌+◌, Bool, true, false, ltb, ◌==◌, Option, none, some, if◌then◌else◌, List, [], ◌∷◌,
  ◌++◌, get_elem?, set,
}
use learning_cpp.Market.Ring.{Ring, Outcome, produce_item, consume_item, init_item_repository}

-- Who holds the mutex of a counter, and where: before the pass through `mtx`, on the condition
-- variable, or behind the call.
pub data Section : Type 0 where
  free : Section
  entered waiting leaving : ℕ → Section

-- The flags are true for the threads that have not left their loop. `taken` has the items that
-- `ConsumeItem` returned, to any thread.
pub record Market : Type 0 where
  pub ring : Ring
  pub produced_item_counter : ℕ
  pub consumed_item_counter : ℕ
  pub producer : Section
  pub consumer : Section
  pub producers : List Bool
  pub consumers : List Bool
  pub taken : List ℕ

-- A turn of a thread, or a spurious wakeup.
pub data Turn : Type 0 where
  produce consume : ℕ → Turn
  wake_producer wake_consumer : Turn

-- `notify_all`, for the one thread that can wait.
abbrev pub woken : Section → Section
woken (Section.waiting i) = Section.entered i
woken s = s

-- `ProducerTask` from the lock of the counter on.
unfoldable pub enter_producer : ℕ → Market → ℕ → Option Market
enter_producer count m i = elim (get_elem? m.producers i) [
  | some true ↦ some (
      if ltb m.produced_item_counter count
      then record m {
        produced_item_counter = m.produced_item_counter + 1;
        producer = Section.entered i;
      }
      else record m { producers = set m.producers i false })
  | _ ↦ none
]

unfoldable pub after_produce : Market → ℕ → Outcome Ring → Option Market
after_produce m i Outcome.out_of_bounds = none
after_produce m i Outcome.waits = some (record m { producer = Section.waiting i })
after_produce m i (Outcome.done ring) =
    some (record m { ring = ring; producer = Section.leaving i; consumer = woken m.consumer })

abbrev pub produce_at : ℕ → ℕ → Market → ℕ → Section → Option Market
produce_at size count m i Section.free = enter_producer count m i
produce_at size count m i (Section.entered j) =
    if i == j then after_produce m i (produce_item size m.produced_item_counter m.ring) else none
produce_at size count m i (Section.waiting j) = none
produce_at size count m i (Section.leaving j) =
    if i == j then some (record m { producer = Section.free }) else none

-- `ConsumerTask` from the lock of the counter on.
unfoldable pub enter_consumer : ℕ → Market → ℕ → Option Market
enter_consumer count m i = elim (get_elem? m.consumers i) [
  | some true ↦ some (
      if ltb m.consumed_item_counter count
      then record m { consumer = Section.entered i }
      else record m { consumers = set m.consumers i false })
  | _ ↦ none
]

unfoldable pub after_consume : Market → ℕ → Outcome (ℕ × Ring) → Option Market
after_consume m i Outcome.out_of_bounds = none
after_consume m i Outcome.waits = some (record m { consumer = Section.waiting i })
after_consume m i (Outcome.done (item, ring)) = some (record m {
  ring = ring;
  consumer = Section.leaving i;
  producer = woken m.producer;
  taken = m.taken ++ item ∷ [];
})

abbrev pub consume_at : ℕ → ℕ → Market → ℕ → Section → Option Market
consume_at size count m i Section.free = enter_consumer count m i
consume_at size count m i (Section.entered j) =
    if i == j then after_consume m i (consume_item size m.ring) else none
consume_at size count m i (Section.waiting j) = none
consume_at size count m i (Section.leaving j) =
    if i == j
    then some
        (record m { consumed_item_counter = m.consumed_item_counter + 1; consumer = Section.free })
    else none

abbrev pub is_waiting : Section → Bool
is_waiting (Section.waiting i) = true
is_waiting s = false

-- A turn, or `none` if the thread cannot move.
unfoldable pub step : ℕ → ℕ → Market → Turn → Option Market
step size count m (Turn.produce i) = produce_at size count m i m.producer
step size count m (Turn.consume i) = consume_at size count m i m.consumer
step size count m Turn.wake_producer =
    if is_waiting m.producer then some (record m { producer = woken m.producer }) else none
step size count m Turn.wake_consumer =
    if is_waiting m.consumer then some (record m { consumer = woken m.consumer }) else none

-- A schedule, of which every turn must be one that moves.
unfoldable pub run : ℕ → ℕ → Market → List Turn → Option Market
run size count m [] = some m
run size count m (t ∷ ts) = elim (step size count m t) [
  | none ↦ none
  | some m' ↦ run size count m' ts
]

abbrev pub running : ℕ → List Bool
running zero = []
running (suc n) = true ∷ running n

-- `main` after `InitItemRepository`, with all threads begun.
abbrev pub main : List ℕ → (producers consumers : ℕ) → Market
main buffer producers consumers = record {
  ring = init_item_repository buffer;
  produced_item_counter = 0;
  consumed_item_counter = 0;
  producer = Section.free;
  consumer = Section.free;
  producers = running producers;
  consumers = running consumers;
  taken = [];
}
