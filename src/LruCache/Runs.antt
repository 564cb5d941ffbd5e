-- ===== src/LruCache/Runs.antt =====
-- Sequences of calls of the cache.
use learning_cpp.Prelude.{ℕ, ◌≡◌, refl, ap, ◌∙◌, arith, Option, none, some, List, [], ◌∷◌}
use learning_cpp.LruCache.{LruCache, new_cache, put, get}
use learning_cpp.LruCache.Nodes.{find}
use learning_cpp.LruCache.Refines.{
  Entry, entries, put_entry, get_entry, Inv, Leaves, put_refines, get_refines,
}

pub data Call : Type 0 where
  puts : ℕ → ℕ → Call
  gets : ℕ → Call

-- What the calls of `get` answer, and the cache that they leave.
unfoldable pub run : List Call → LruCache → Option (List (Option ℕ) × LruCache)
run [] c = some ([], c)
run (Call.puts k v ∷ calls) c = elim (put k v c) [ none ↦ none | some c' ↦ run calls c' ]
run (Call.gets k ∷ calls) c = elim (get k c) [
  | none ↦ none
  | some (o, c') ↦ elim (run calls c') [ none ↦ none | some (os, c2) ↦ some (o ∷ os, c2) ]
]

-- The same calls on the list of entries.
unfoldable pub run_entries : ℕ → List Call → List Entry → List (Option ℕ) × List Entry
run_entries cap [] l = ([], l)
run_entries cap (Call.puts k v ∷ calls) l = run_entries cap calls (put_entry cap k v l)
run_entries cap (Call.gets k ∷ calls) l =
    let (o, l') = get_entry k l in let (os, l2) = run_entries cap calls l' in (o ∷ os, l2)

-- The outcome of calls on a cache, and the entries.
abbrev pub Agrees : LruCache → List Call → Type 0
Agrees c calls =
    let (os, l) = run_entries c.cap calls (entries c) in
    (c' : LruCache) × ((run calls c ≡ some (os, c')) × Leaves c c' l)

Agrees-Leaves :
    (c c1 : LruCache) (calls : List Call) (l : List Entry)
    → Leaves c c1 l
    → Agrees c1 calls
    → (c' : LruCache) × ((run calls c1 ≡ some ((run_entries c.cap calls l).0, c'))
        × Leaves c c' (run_entries c.cap calls l).1)
Agrees-Leaves c c1 calls l h (c', (e, k)) =
    let same : run_entries c1.cap calls (entries c1) ≡ run_entries c.cap calls l =
      rw (h.same_cap, h.entries_are) refl in
    (
      c',
      (
        e ∙ ap (λ r. some (r.0, c')) same,
        record {
          inv = k.inv;
          same_cap = k.same_cap ∙ h.same_cap;
          entries_are = k.entries_are ∙ ap (λ r. r.1) same;
        },
      ),
    )

pub run_refines : (calls : List Call) (c : LruCache) → Inv c → Agrees c calls
unfolding run run_entries
run_refines [] c h = (c, (refl, record { inv = h; same_cap = refl; entries_are = refl }))
run_refines (Call.puts k v ∷ calls) c h =
    let (c1, (e, left)) = put_refines c k v h in
    let (c', (e', left')) = Agrees-Leaves c c1 calls _ left (run_refines calls c1 left.inv) in
    (c', (ground (arith, e, e'), left'))
run_refines (Call.gets k ∷ calls) c h =
    let (c1, (e, left)) = get_refines c k h in
    let (c', (e', left')) = Agrees-Leaves c c1 calls _ left (run_refines calls c1 left.inv) in
    (c', (ground (arith, e, e'), left'))

pub new_cache-Inv : (cap : ℕ) → Inv (new_cache cap)
unfolding find
new_cache-Inv cap = record { distinct = tt; old = tt; linked = λ k. refl; sized = refl }

-- Any calls on a new cache never use an iterator of an element that is gone; each `get` answers as on
-- a list of entries with the latest one first, from which the last one goes when there are more than
-- `cap`, and the elements left are that list's entries.
pub run-new_cache :
    (cap : ℕ) (calls : List Call)
    → (c : LruCache) × ((run calls (new_cache cap) ≡ some ((run_entries cap calls []).0, c))
        × (entries c ≡ (run_entries cap calls []).1))
run-new_cache cap calls =
    let (c, (e, left)) = run_refines calls (new_cache cap) (new_cache-Inv cap) in
    (c, (e, left.entries_are))
