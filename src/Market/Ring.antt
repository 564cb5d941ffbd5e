-- ===== src/Market/Ring.antt =====
-- `ItemRepository` of produce_consume/: the ring buffer, and the calls of `ProduceItem` and
-- `ConsumeItem` while they hold its mutex. The four programs differ in `kItemRepositorySize`, which is
-- `size` here.
pub mod Contents
pub mod Refines
use learning_cpp.Prelude.{
  ℕ, ◌+◌, ◌%◌, Bool, true, false, leb, ltb, ◌==◌, Option, none, some, if◌then◌else◌, List, [], ◌∷◌,
  length, get_elem?, set,
}

pub record Ring : Type 0 where
  pub item_buffer : List ℕ
  pub read_position : ℕ
  pub write_position : ℕ

-- One pass of a call through the mutex: it waits on the condition variable, it is done, or it goes
-- outside of the array.
pub data Outcome (A : Type 0) : Type 0 where
  waits out_of_bounds : Outcome A
  done : A → Outcome A

unfoldable pub is_full : ℕ → Ring → Bool
is_full size r = (r.write_position + 1) % size == r.read_position

abbrev pub is_empty : Ring → Bool
is_empty r = r.write_position == r.read_position

abbrev pub next_write : ℕ → ℕ → ℕ
next_write size w = if w + 1 == size then 0 else w + 1

abbrev pub next_read : ℕ → ℕ → ℕ
next_read size r = if leb size (r + 1) then 0 else r + 1

abbrev pub put : ℕ → ℕ → Ring → Outcome Ring
put size item r =
    if ltb r.write_position (length r.item_buffer)
    then Outcome.done (record r {
      item_buffer = set r.item_buffer r.write_position item;
      write_position = next_write size r.write_position;
    })
    else Outcome.out_of_bounds

-- `ProduceItem`.
unfoldable pub produce_item : ℕ → ℕ → Ring → Outcome Ring
produce_item size item r = if is_full size r then Outcome.waits else put size item r

abbrev pub took : ℕ → Ring → Option ℕ → Outcome (ℕ × Ring)
took size r none = Outcome.out_of_bounds
took size r (some data_) =
    Outcome.done (data_, record r { read_position = next_read size r.read_position })

-- `ConsumeItem`.
unfoldable pub consume_item : ℕ → Ring → Outcome (ℕ × Ring)
consume_item size r =
    if is_empty r then Outcome.waits else took size r (get_elem? r.item_buffer r.read_position)

-- `InitItemRepository`, on the array that the program has.
abbrev pub init_item_repository : List ℕ → Ring
init_item_repository buffer = record { item_buffer = buffer; read_position = 0; write_position = 0 }
