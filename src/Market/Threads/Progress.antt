-- ===== src/Market/Threads/Progress.antt =====
-- There is no deadlock: a thread can move, or all have left their loops.
use learning_cpp.Prelude.{
  ℕ, zero, suc, ◌+◌, ◌-◌, ◌<◌, ◌≡◌, ◌≢◌, refl, sym, ap, ◌∙◌, arith, Bool, true, false, not, ◌&&◌,
  none, some, List, [], ◌∷◌, Option-cases, inl, inr, ◌⊎◌, length, length-append, get_elem?,
}
use learning_cpp.Market.Ring.Contents.{contents}
use learning_cpp.Market.Ring.Refines.{produce_in_bounds, consume_in_bounds}
use learning_cpp.Market.Threads.{
  Section, Market, Turn, enter_producer, after_produce, enter_consumer, after_consume, is_waiting,
  step,
}
use learning_cpp.Market.Threads.Invariant.{Inv, items, any_running, pending}

abbrev pub is_free : Section → Bool
is_free Section.free = true
is_free s = false

-- All threads have left their loops.
abbrev pub finished : Market → Bool
finished m =
    (is_free m.producer && is_free m.consumer)
    && (not (any_running m.producers) && not (any_running m.consumers))

abbrev pub wakeups : Turn → ℕ
wakeups Turn.wake_producer = 1
wakeups Turn.wake_consumer = 1
wakeups t = 0

abbrev pub all_wakeups : List Turn → ℕ
all_wakeups [] = 0
all_wakeups (t ∷ ts) = wakeups t + all_wakeups ts

-- Some thread can take its turn, with no spurious wakeup.
abbrev pub CanMove : ℕ → ℕ → Market → Type 0
CanMove size count m =
    (t : Turn) × ((m' : Market) × ((wakeups t ≡ 0) × (step size count m t ≡ some m')))

Section-cases :
    (s : Section)
    → (s ≡ Section.free)
      ⊎ (((i : ℕ) × (s ≡ Section.entered i))
          ⊎ ((is_waiting s ≡ true) ⊎ ((i : ℕ) × (s ≡ Section.leaving i))))
Section-cases Section.free = inl refl
Section-cases (Section.entered i) = inr (inl (i, refl))
Section-cases (Section.waiting i) = inr (inr (inl refl))
Section-cases (Section.leaving i) = inr (inr (inr (i, refl)))

find_running :
    (bs : List Bool) → ((i : ℕ) × (get_elem? bs i ≡ some true)) ⊎ (any_running bs ≡ false)
find_running [] = inr refl
find_running (true ∷ bs) = inl (0, refl)
find_running (false ∷ bs) = elim (find_running bs) [ inl (i, e) ↦ inl (suc i, e) | inr e ↦ inr e ]

module _ (size count : ℕ) (m : Market) (k : Inv size count m) where
  moves : (t : Turn) → wakeups t ≡ 0 → step size count m t ≢ none → CanMove size count m
  moves t w h = elim (Option-cases (step size count m t)) [
    | inl e ↦ absurd (h e)
    | inr (m', e) ↦ (t, (m', (w, e)))
  ]

  -- A producer can move, or one waits, or all have left.
  producer_moves :
      ((m.producer ≡ Section.free) × (any_running m.producers ≡ false))
      ⊎ ((is_waiting m.producer ≡ true) ⊎ CanMove size count m)
  unfolding step enter_producer after_produce
  producer_moves = elim (Section-cases m.producer) [
    | inl f ↦ elim (find_running m.producers) [
      | inl (i, e) ↦ inr (inr (moves (Turn.produce i) refl (λ n. ground arith)))
      | inr e ↦ inl (f, e)
    ]
    | inr (inl (i, e)) ↦ inr (
        inr (
          moves (Turn.produce i) refl
            (λ n. ground (arith, produce_in_bounds size m.produced_item_counter m.ring k.ring_is))))
    | inr (inr (inl w)) ↦ inr (inl w)
    | inr (inr (inr (i, e))) ↦ inr (inr (moves (Turn.produce i) refl (λ n. ground arith)))
  ]

  consumer_moves :
      ((m.consumer ≡ Section.free) × (any_running m.consumers ≡ false))
      ⊎ ((is_waiting m.consumer ≡ true) ⊎ CanMove size count m)
  unfolding step enter_consumer after_consume
  consumer_moves = elim (Section-cases m.consumer) [
    | inl f ↦ elim (find_running m.consumers) [
      | inl (i, e) ↦ inr (inr (moves (Turn.consume i) refl (λ n. ground arith)))
      | inr e ↦ inl (f, e)
    ]
    | inr (inl (i, e)) ↦ inr (
        inr (
          moves (Turn.consume i) refl
            (λ n. ground (arith, consume_in_bounds size m.ring k.ring_is))))
    | inr (inr (inl w)) ↦ inr (inl w)
    | inr (inr (inr (i, e))) ↦ inr (inr (moves (Turn.consume i) refl (λ n. ground arith)))
  ]

pub length-items : (n : ℕ) → length (items n) ≡ n
unfolding items
length-items zero = refl
length-items (suc n) = omega (arith, length-append (items n) (suc n ∷ []), length-items n)

module _ (size count : ℕ) (m : Market) (k : Inv size count m) (big : 1 < size) where
  pub in_total :
      length m.taken + length (contents m.ring) + pending m.producer ≡ m.produced_item_counter
  in_total = omega (
    arith,
    k.pending_le,
    sym (length-append m.taken (contents m.ring)) ∙ ap length k.in_order,
    length-items (m.produced_item_counter - pending m.producer),
  )

  -- Between two turns a thread can move, or all have left: there is no deadlock.
  pub not_stuck : (finished m ≡ true) ⊎ CanMove size count m
  not_stuck = elim (producer_moves size count m k) [
    | inr (inr c) ↦ inr c
    | inl (pf, pe) ↦ elim (consumer_moves size count m k) [
      | inr (inr c) ↦ inr c
      | inl (cf, ce) ↦ inl (ground arith)
      | inr (inl w) ↦
          absurd (ground (arith, in_total, ap length (k.when_empty w), k.producers_done pe))
    ]
    | inr (inl v) ↦ elim (consumer_moves size count m k) [
      | inr (inr c) ↦ inr c
      | inl (cf, ce) ↦ absurd (ground (arith, in_total, k.when_full v, k.consumers_done ce))
      | inr (inl w) ↦ absurd (ground (arith, ap length (k.when_empty w), k.when_full v))
    ]
  ]
