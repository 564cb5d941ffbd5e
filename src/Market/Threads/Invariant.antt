-- ===== src/Market/Threads/Invariant.antt =====
-- What holds of the repository and of the counters between two turns.
use learning_cpp.Prelude.{
  ℕ, zero, suc, ◌+◌, ◌-◌, ◌≤◌, ◌<◌, ◌≡◌, refl, arith, Bool, true, false, ◌||◌, some, List, [], ◌∷◌,
  ◌++◌, append_assoc, Option-cases, inl, inr, length, length-append,
}
use mathlib.Core.Path.{subst}
use learning_cpp.Market.Ring.{Ring, Outcome, consume_item}
use learning_cpp.Market.Ring.Contents.{contents, segment, IsRing}
use learning_cpp.Market.Ring.Refines.{
  full_of_waits, contents_of_done, empty_of_waits, contents_of_taken, IsRing-produce_item,
  IsRing-consume_item,
}
use learning_cpp.Market.Threads.{
  Section, Market, Turn, woken, enter_producer, after_produce, produce_at, enter_consumer,
  after_consume, consume_at, is_waiting, step, run, running, main,
}

-- The items 1 to `n`.
unfoldable pub items : ℕ → List ℕ
items zero = []
items (suc n) = items n ++ suc n ∷ []

-- One for a thread that has increased the counter and not put its item.
abbrev pub pending : Section → ℕ
pending Section.free = 0
pending (Section.entered i) = 1
pending (Section.waiting i) = 1
pending (Section.leaving i) = 0

-- One for a thread that has an item and has not counted it.
abbrev pub uncounted : Section → ℕ
uncounted (Section.leaving i) = 1
uncounted s = 0

abbrev pub busy : Section → ℕ
busy Section.free = 0
busy s = 1

abbrev pub any_running : List Bool → Bool
any_running [] = false
any_running (b ∷ bs) = b || any_running bs

pub record Inv (size count : ℕ) (m : Market) : Type 0 where
  pub ring_is : IsRing size m.ring
  pub in_order : m.taken ++ contents m.ring ≡ items (m.produced_item_counter - pending m.producer)
  pub pending_le : pending m.producer ≤ m.produced_item_counter
  pub produced_le : m.produced_item_counter ≤ count
  pub counted : length m.taken ≡ m.consumed_item_counter + uncounted m.consumer
  pub consumed_le : m.consumed_item_counter + busy m.consumer ≤ count
  pub when_full : is_waiting m.producer ≡ true → length (contents m.ring) + 1 ≡ size
  pub when_empty : is_waiting m.consumer ≡ true → contents m.ring ≡ []
  pub producers_done : any_running m.producers ≡ false → count ≤ m.produced_item_counter
  pub consumers_done : any_running m.consumers ≡ false → count ≤ m.consumed_item_counter

items_last : (n : ℕ) → 1 ≤ n → items n ≡ items (n - 1) ++ n ∷ []
unfolding items
items_last zero h = absurd (omega arith)
items_last (suc n) h = let e : suc n - 1 ≡ n = omega arith in rw e refl

abbrev item_of : Outcome (ℕ × Ring) → ℕ
item_of (Outcome.done (x, r)) = x
item_of _ = 0

module _ (size count : ℕ) (m m' : Market) (k : Inv size count m) (i : ℕ) where
  -- A turn of a producer.
  Inv-produce : produce_at size count m i m.producer ≡ some m' → Inv size count m'
  unfolding enter_producer after_produce
  Inv-produce e =
      let full = full_of_waits size m.produced_item_counter m.ring k.ring_is in
      let put = contents_of_done size m.produced_item_counter m.ring k.ring_is m'.ring in
      record {
        ring_is = ground (
          arith,
          IsRing-produce_item size m.produced_item_counter m.ring m'.ring k.ring_is,
          k.ring_is,
        );
        in_order = ground (
          arith,
          k.in_order,
          put,
          items_last m.produced_item_counter,
          append_assoc m.taken (contents m.ring) (m.produced_item_counter ∷ []),
        );
        pending_le = ground arith;
        produced_le = ground arith;
        counted = ground arith;
        consumed_le = ground arith;
        when_full = λ w. ground (arith, full);
        when_empty = λ w. ground (arith, k.when_empty);
        producers_done = λ w. ground (arith, k.producers_done);
        consumers_done = λ w. ground (arith, k.consumers_done);
      }

  -- A turn of a consumer.
  Inv-consume : consume_at size count m i m.consumer ≡ some m' → Inv size count m'
  unfolding enter_consumer after_consume
  Inv-consume e =
      let empty = empty_of_waits size m.ring k.ring_is in
      let x = item_of (consume_item size m.ring) in
      let got = contents_of_taken size m.ring k.ring_is x m'.ring in
      record {
        ring_is = ground (arith, IsRing-consume_item size x m.ring m'.ring k.ring_is, k.ring_is);
        in_order =
            ground (arith, k.in_order, got, append_assoc m.taken (x ∷ []) (contents m'.ring));
        pending_le = ground arith;
        produced_le = ground arith;
        counted = ground (arith, length-append m.taken (x ∷ []));
        consumed_le = ground arith;
        when_full = λ w. ground (arith, k.when_full);
        when_empty = λ w. ground (arith, empty);
        producers_done = λ w. ground (arith, k.producers_done);
        consumers_done = λ w. ground (arith, k.consumers_done);
      }

-- A wakeup without a notification.
Inv-wake_producer :
    (size count : ℕ) (m : Market)
    → Inv size count m
    → is_waiting m.producer ≡ true
    → Inv size count (record m { producer = woken m.producer })
Inv-wake_producer size count m k w = record {
  ring_is = k.ring_is;
  in_order = ground (arith, k.in_order);
  pending_le = ground arith;
  produced_le = k.produced_le;
  counted = k.counted;
  consumed_le = k.consumed_le;
  when_full = λ v. ground arith;
  when_empty = k.when_empty;
  producers_done = k.producers_done;
  consumers_done = k.consumers_done;
}

Inv-wake_consumer :
    (size count : ℕ) (m : Market)
    → Inv size count m
    → is_waiting m.consumer ≡ true
    → Inv size count (record m { consumer = woken m.consumer })
Inv-wake_consumer size count m k w = record {
  ring_is = k.ring_is;
  in_order = k.in_order;
  pending_le = k.pending_le;
  produced_le = k.produced_le;
  counted = ground (arith, k.counted);
  consumed_le = ground arith;
  when_full = k.when_full;
  when_empty = λ v. ground arith;
  producers_done = k.producers_done;
  consumers_done = k.consumers_done;
}

pub Inv-step :
    (size count : ℕ) (m m' : Market) (t : Turn)
    → Inv size count m
    → step size count m t ≡ some m'
    → Inv size count m'
unfolding step
Inv-step size count m m' (Turn.produce i) k e = Inv-produce size count m m' k i e
Inv-step size count m m' (Turn.consume i) k e = Inv-consume size count m m' k i e
Inv-step size count m m' Turn.wake_producer k e =
    let w : is_waiting m.producer ≡ true = ground arith in
    let same : record m { producer = woken m.producer } ≡ m' = ground arith in
    subst (Inv size count) same (Inv-wake_producer size count m k w)
Inv-step size count m m' Turn.wake_consumer k e =
    let w : is_waiting m.consumer ≡ true = ground arith in
    let same : record m { consumer = woken m.consumer } ≡ m' = ground arith in
    subst (Inv size count) same (Inv-wake_consumer size count m k w)

any_running_lem : (n : ℕ) → 0 < n → any_running (running n) ≡ true
any_running_lem zero h = absurd (omega arith)
any_running_lem (suc n) h = refl

pub Inv-main :
    (size count : ℕ) (buffer : List ℕ) (p c : ℕ)
    → length buffer ≡ size
    → 0 < size
    → 0 < p
    → 0 < c
    → Inv size count (main buffer p c)
unfolding contents segment items
Inv-main size count buffer p c l h hp hc = record {
  ring_is = record { length_is = l; read_lt = h; write_lt = h };
  in_order = refl;
  pending_le = omega arith;
  produced_le = omega arith;
  counted = omega arith;
  consumed_le = omega arith;
  when_full = λ w. cc;
  when_empty = λ w. cc;
  producers_done = λ w. ground (arith, any_running_lem p hp);
  consumers_done = λ w. ground (arith, any_running_lem c hc);
}

pub Inv-run :
    (size count : ℕ) (m m' : Market) (ts : List Turn)
    → Inv size count m
    → run size count m ts ≡ some m'
    → Inv size count m'
unfolding run
Inv-run size count m m' [] k e = let same : m ≡ m' = ground arith in subst (Inv size count) same k
Inv-run size count m m' (t ∷ ts) k e = elim (Option-cases (step size count m t)) [
  | inl f ↦ absurd (ground arith)
  | inr (m1, f) ↦ Inv-run size count m1 m' ts (Inv-step size count m m1 t k f) (ground arith)
]
