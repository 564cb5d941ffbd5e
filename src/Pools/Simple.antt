-- ===== src/Pools/Simple.antt =====
-- The lists of zl_threadpool/01_simple_threadPool/threadPool.cpp: items with two pointers in a store,
-- where a pointer is an item's number or null. The jobs and the workers of a pool are such lists.
pub mod Links
pub mod Unlink
pub mod Threads
use learning_cpp.Prelude.{ℕ, ◌==◌, Bool, true, false, Option, none, some, if◌then◌else◌}

pub record Item : Type 0 where
  pub next : Option ℕ
  pub prev : Option ℕ

-- The items, and the pointer to the first of a list.
pub record Items : Type 0 where
  pub item : ℕ → Item
  pub list : Option ℕ

unfoldable pub set_next : ℕ → Option ℕ → (ℕ → Item) → ℕ → Item
set_next i v m j = if j == i then record (m j) { next = v } else m j

unfoldable pub set_prev : ℕ → Option ℕ → (ℕ → Item) → ℕ → Item
set_prev i v m j = if j == i then record (m j) { prev = v } else m j

abbrev pub next_through : Option ℕ → Option ℕ → (ℕ → Item) → ℕ → Item
next_through none v m = m
next_through (some i) v m = set_next i v m

abbrev pub prev_through : Option ℕ → Option ℕ → (ℕ → Item) → ℕ → Item
prev_through none v m = m
prev_through (some i) v m = set_prev i v m

abbrev pub points_to : Option ℕ → ℕ → Bool
points_to none i = false
points_to (some j) i = j == i

-- `LL_INSERT(item, list)`.
unfoldable pub ll_insert : ℕ → Items → Items
ll_insert i s =
    let own = set_next i s.list (set_prev i none s.item) in
    record { item = prev_through s.list (some i) own; list = some i }

-- `LL_REMOVE(item, list)`.
unfoldable pub ll_remove : ℕ → Items → Items
ll_remove i s =
    let around = next_through (s.item i).prev (s.item i).next s.item in
    let closed = prev_through (around i).next (around i).prev around in
    record {
      item = set_next i none (set_prev i none closed);
      list = if points_to s.list i then (closed i).next else s.list;
    }
