-- ===== src/Tests/Market.antt =====
-- produce_consume/ with a small array and few threads.
use learning_cpp.Prelude.{
  ℕ, ◌+◌, ◌*◌, ◌≤◌, ◌≡◌, refl, arith, true, some, List, [], ◌∷◌, ◌⊎◌, length,
}
use learning_cpp.Market.Ring.{Ring, produce_item, consume_item, is_full}
use learning_cpp.Market.Ring.Contents.{contents, IsRing}
use learning_cpp.Market.Ring.Refines.{
  push, pop, map_outcome, produce_item_refines, consume_item_refines,
}
use learning_cpp.Market.Threads.{
  Section, Market, Turn, enter_producer, after_produce, enter_consumer, after_consume, step, run,
  main,
}
use learning_cpp.Market.Threads.Invariant.{items}
use learning_cpp.Market.Threads.Progress.{finished, all_wakeups, CanMove}
use learning_cpp.Market.Threads.Ends.{taken_in_order, run_ends}

-- The items 8 and 9 around the end of an array of four.
abbrev wrapped : Ring
wrapped = record { item_buffer = 9 ∷ 7 ∷ 7 ∷ 8 ∷ []; read_position = 3; write_position = 1 }

wrapped-IsRing : IsRing 4 wrapped
wrapped-IsRing = record { length_is = refl; read_lt = omega arith; write_lt = omega arith }

produce_item_refines_example :
    map_outcome contents (produce_item 4 5 wrapped) ≡ push 4 5 (contents wrapped)
produce_item_refines_example = produce_item_refines 4 5 wrapped wrapped-IsRing

consume_item_refines_example :
    map_outcome (λ t. (t.0, contents t.1)) (consume_item 4 wrapped) ≡ pop (contents wrapped)
consume_item_refines_example = consume_item_refines 4 wrapped wrapped-IsRing

abbrev buffer : List ℕ
buffer = 0 ∷ 0 ∷ []

-- A consumer that waits, two producers of which one waits, and one spurious wakeup.
abbrev turns : List Turn
turns =
    Turn.consume 0
    ∷ Turn.consume 0
    ∷ Turn.wake_consumer
    ∷ Turn.consume 0
    ∷ Turn.produce 0
    ∷ Turn.produce 0
    ∷ Turn.produce 0
    ∷ Turn.produce 1
    ∷ Turn.produce 1
    ∷ Turn.consume 0
    ∷ Turn.consume 0
    ∷ Turn.produce 1
    ∷ []

abbrev reached : Market
reached = record {
  ring = record { item_buffer = 1 ∷ 2 ∷ []; read_position = 1; write_position = 0 };
  produced_item_counter = 2;
  consumed_item_counter = 1;
  producer = Section.leaving 1;
  consumer = Section.free;
  producers = true ∷ true ∷ [];
  consumers = true ∷ [];
  taken = 1 ∷ [];
}

ran : run 2 2 (main buffer 2 1) turns ≡ some reached
unfolding run step enter_producer after_produce enter_consumer after_consume produce_item
    consume_item is_full
ran = refl

taken_in_order_example : 1 ∷ [] ≡ items 1
taken_in_order_example =
    taken_in_order 2 2 buffer 2 1 refl (omega arith) (omega arith) (omega arith) turns reached ran

run_ends_example :
    (length turns ≤ 8 * 2 + 3 + 2 + 1 + 2 * all_wakeups turns)
    × ((finished reached ≡ true) × (reached.taken ≡ items 2) ⊎ CanMove 2 2 reached)
run_ends_example =
    run_ends 2 2 buffer 2 1 refl (omega arith) (omega arith) (omega arith) turns reached ran
