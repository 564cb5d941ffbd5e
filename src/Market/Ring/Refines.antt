-- ===== src/Market/Ring/Refines.antt =====
-- The ring buffer against a queue of bounded length.
use learning_cpp.Prelude.{
  ℕ, ◌+◌, ◌≤◌, ◌<◌, ◌≡◌, ◌≢◌, refl, sym, arith, leb, ◌==◌, if◌then◌else◌, List, [], ◌∷◌, ◌++◌,
  length, inl, inr, Bool-cases, lt→ltb,
}
use learning_cpp.Market.Ring.{Ring, Outcome, is_full, produce_item, consume_item}
use learning_cpp.Market.Ring.Contents.{
  segment, contents, IsRing, segment-set, segment_first, segment_same, length-segment,
  next_position, length-set,
}

-- A queue of less than `size` items, with the outcomes of the ring.
unfoldable pub push : ℕ → ℕ → List ℕ → Outcome (List ℕ)
push size item q = if leb size (length q + 1) then Outcome.waits else Outcome.done (q ++ item ∷ [])

unfoldable pub pop : List ℕ → Outcome (ℕ × List ℕ)
pop [] = Outcome.waits
pop (x ∷ q) = Outcome.done (x, q)

abbrev pub map_outcome : {A B : Type 0} → (A → B) → Outcome A → Outcome B
map_outcome f Outcome.waits = Outcome.waits
map_outcome f Outcome.out_of_bounds = Outcome.out_of_bounds
map_outcome f (Outcome.done a) = Outcome.done (f a)

module _ (b : List ℕ) (rd w : ℕ) (r_lt : rd < length b) (w_lt : w < length b) where
  push_item :
      (item : ℕ)
      → map_outcome contents (
          produce_item
            (length b)
            item
            (record { item_buffer = b; read_position = rd; write_position = w }))
        ≡ push (length b) item (segment b rd w)
  unfolding produce_item is_full contents push
  push_item item = rw (next_position (length b) w w_lt) (
      ground (
        arith,
        lt→ltb w (length b) w_lt,
        segment-set b rd w item r_lt w_lt,
        length-segment b rd w r_lt w_lt,
      ))

  pop_item :
      map_outcome
        (λ t. (t.0, contents t.1))
        (consume_item
          (length b)
          (record { item_buffer = b; read_position = rd; write_position = w }))
      ≡ pop (segment b rd w)
  unfolding consume_item contents pop
  pop_item = elim (Bool-cases (w == rd)) [
    | inl e ↦ rw (e, segment_same b rd w (ground arith)) refl
    | inr e ↦ let (x, (g, s)) = segment_first b rd w r_lt w_lt (ground arith) in rw (e, g, s) refl
  ]

-- One pass of `ProduceItem` puts the item behind those that the buffer holds, or waits if there are
-- `size - 1` of them; it never writes outside of the array.
pub produce_item_refines :
    (size item : ℕ) (r : Ring)
    → IsRing size r
    → map_outcome contents (produce_item size item r) ≡ push size item (contents r)
unfolding contents
produce_item_refines size item r k =
    rw (sym k.length_is)
      (push_item r.item_buffer r.read_position r.write_position (omega arith) (omega arith) item)

-- One pass of `ConsumeItem` takes the first of the items that the buffer holds, or waits if there is
-- none; it never reads outside of the array.
pub consume_item_refines :
    (size : ℕ) (r : Ring)
    → IsRing size r
    → map_outcome (λ t. (t.0, contents t.1)) (consume_item size r) ≡ pop (contents r)
unfolding contents
consume_item_refines size r k =
    rw (sym k.length_is)
      (pop_item r.item_buffer r.read_position r.write_position (omega arith) (omega arith))

pub IsRing-produce_item :
    (size item : ℕ) (r r' : Ring)
    → IsRing size r
    → produce_item size item r ≡ Outcome.done r'
    → IsRing size r'
unfolding produce_item
IsRing-produce_item size item r r' k e = record {
  length_is = ground (arith, length-set r.item_buffer r.write_position item);
  read_lt = ground arith;
  write_lt = ground arith;
}

pub IsRing-consume_item :
    (size x : ℕ) (r r' : Ring)
    → IsRing size r
    → consume_item size r ≡ Outcome.done (x, r')
    → IsRing size r'
unfolding consume_item
IsRing-consume_item size x r r' k e = record {
  length_is = ground arith;
  read_lt = ground arith;
  write_lt = ground arith;
}

-- The buffer never holds `size` items.
pub length-contents : (size : ℕ) (r : Ring) → IsRing size r → length (contents r) + 1 ≤ size
unfolding contents
length-contents size r k = omega (
  arith,
  length-segment r.item_buffer r.read_position r.write_position (omega arith) (omega arith),
)

module _ (size item : ℕ) (r : Ring) (k : IsRing size r) where
  pub full_of_waits : produce_item size item r ≡ Outcome.waits → length (contents r) + 1 ≡ size
  unfolding push
  full_of_waits e = ground (arith, produce_item_refines size item r k, length-contents size r k)

  pub contents_of_done :
      (r' : Ring)
      → produce_item size item r ≡ Outcome.done r'
      → contents r' ≡ contents r ++ item ∷ []
  unfolding push
  contents_of_done r' e = ground (arith, produce_item_refines size item r k)

  pub produce_in_bounds : produce_item size item r ≢ Outcome.out_of_bounds
  unfolding push
  produce_in_bounds e = ground (arith, produce_item_refines size item r k)

module _ (size : ℕ) (r : Ring) (k : IsRing size r) where
  pub empty_of_waits : consume_item size r ≡ Outcome.waits → contents r ≡ []
  unfolding pop
  empty_of_waits e = ground (arith, consume_item_refines size r k)

  pub contents_of_taken :
      (x : ℕ) (r' : Ring)
      → consume_item size r ≡ Outcome.done (x, r')
      → contents r ≡ x ∷ contents r'
  unfolding pop
  contents_of_taken x r' e = ground (arith, consume_item_refines size r k)

  pub consume_in_bounds : consume_item size r ≢ Outcome.out_of_bounds
  unfolding pop
  consume_in_bounds e = ground (arith, consume_item_refines size r k)
