-- ===== src/LruCache.antt =====
-- c++11/LRUCache.cpp: the cache, each of whose operations runs under the mutex.
pub mod Nodes
pub mod Refines
pub mod Runs
pub mod Recent
use learning_cpp.Prelude.{
  ℕ, ◌+◌, ◌-◌, Bool, true, false, ltb, ◌==◌, Option, none, some, if◌then◌else◌, List, [], ◌∷◌,
  Option-cases,
}

-- An element of `cache`. An iterator is the `id` of the element that it points to.
pub record Node : Type 0 where
  pub id : ℕ
  pub key : ℕ
  pub value : ℕ

-- `cap` is the value that the `int` has as a `size_t`, for which a negative one is large. `map` is
-- the hash table with its `size()`, and `fresh` an id that no element had.
pub record LruCache : Type 0 where
  pub cap : ℕ
  pub cache : List Node
  pub map : ℕ → Option ℕ
  pub size : ℕ
  pub fresh : ℕ

-- The constructor.
abbrev pub new_cache : ℕ → LruCache
new_cache capacity = record { cap = capacity; cache = []; map = λ k. none; size = 0; fresh = 0 }

-- `cache.erase(iter)`; `none` is an iterator that points to no element.
abbrev pub erase : ℕ → List Node → Option (List Node)
erase i [] = none
erase i (n ∷ ns) =
    let rest = erase i ns in
    if n.id == i then some ns else elim rest [ none ↦ none | some r ↦ some (n ∷ r) ]

-- The element that an iterator points to.
abbrev pub deref : ℕ → List Node → Option Node
deref i [] = none
deref i (n ∷ ns) = let rest = deref i ns in if n.id == i then some n else rest

-- The last element and those before it.
abbrev pub pop_back : Node → List Node → Node × List Node
pop_back n [] = (n, [])
pop_back n (n' ∷ ns) = let (l, r) = pop_back n' ns in (l, n ∷ r)

abbrev pub update : (ℕ → Option ℕ) → ℕ → Option ℕ → ℕ → Option ℕ
update f key o k = if k == key then o else f k

-- The element is at the front; the last one goes if there are too many.
unfoldable pub evict : LruCache → Node → List Node → LruCache
evict c n ns =
    if ltb c.cap c.size
    then (let (l, r) = pop_back n ns in
        record c { cache = r; map = update c.map l.key none; size = c.size - 1 })
    else record c { cache = n ∷ ns }

-- `push_front` and `map[key] = cache.begin()`.
unfoldable pub push : ℕ → ℕ → LruCache → List Node → ℕ → LruCache
push key value c ns size =
    evict (record c { map = update c.map key (some c.fresh); size = size; fresh = c.fresh + 1 })
      (record { id = c.fresh; key = key; value = value }) ns

-- `none` is the use of an iterator that points to no element.
unfoldable pub put : ℕ → ℕ → LruCache → Option LruCache
put key value c = elim (c.map key) [
  | none ↦ some (push key value c c.cache (c.size + 1))
  | some i ↦ elim (erase i c.cache) [ none ↦ none | some ns ↦ some (push key value c ns c.size) ]
]

-- `cache.splice(cache.begin(), cache, it)`.
abbrev pub splice : ℕ → List Node → Option (Node × List Node)
splice i ns = elim (deref i ns) [
  | none ↦ none
  | some n ↦ elim (erase i ns) [ none ↦ none | some r ↦ some (n, r) ]
]

-- The value that is found, and the cache.
unfoldable pub get : ℕ → LruCache → Option (Option ℕ × LruCache)
get key c = elim (c.map key) [
  | none ↦ some (none, c)
  | some i ↦ elim (splice i c.cache) [
    | none ↦ none
    | some (n, r) ↦ some (some n.value, record c { cache = n ∷ r })
  ]
]
