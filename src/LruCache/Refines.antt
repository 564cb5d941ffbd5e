-- ===== src/LruCache/Refines.antt =====
-- The cache against a list of entries, the latest first.
use learning_cpp.Prelude.{
  ℕ, suc, ◌+◌, ◌≡◌, refl, sym, ap, ◌∙◌, arith, true, false, ltb, ◌==◌, Option, none, some,
  if◌then◌else◌, List, [], ◌∷◌, length, map, length-map, Option-cases, inl, inr, Bool-cases,
}
use mathlib.Core.Path.{subst}
use learning_cpp.LruCache.{Node, LruCache, pop_back, update, evict, push, put, get}
use learning_cpp.LruCache.Nodes.{
  find, remove, id_of, IsNew, AreDistinct, AreOld, erase_found, AreDistinct-remove, AreOld-remove,
  IsNew-remove_key, find-remove, remove-none, length-remove, AreOld-add, AreDistinct-pop_back,
  AreOld-pop_back, length-pop_back, find-pop_back, AreOld-find, IsNew-found,
}

abbrev pub Entry : Type 0
Entry = ℕ × ℕ

abbrev pub entry : Node → Entry
entry n = (n.key, n.value)

abbrev pub entries : LruCache → List Entry
entries c = map entry c.cache

unfoldable pub lookup : ℕ → List Entry → Option ℕ
lookup k [] = none
lookup k ((key, v) ∷ l) = let rest = lookup k l in if key == k then some v else rest

unfoldable pub without : ℕ → List Entry → List Entry
without k [] = []
without k ((key, v) ∷ l) = let rest = without k l in if key == k then rest else (key, v) ∷ rest

unfoldable pub drop_last : List Entry → List Entry
drop_last [] = []
drop_last (e ∷ []) = []
drop_last (e ∷ e' ∷ l) = e ∷ drop_last (e' ∷ l)

-- The entry goes to the front, and the last one goes if there are more than `cap`.
unfoldable pub put_entry : ℕ → ℕ → ℕ → List Entry → List Entry
put_entry cap k v l =
    let l' = (k, v) ∷ without k l in if ltb cap (length l') then drop_last l' else l'

-- The value, and the entries: the one that is found goes to the front.
unfoldable pub get_entry : ℕ → List Entry → Option ℕ × List Entry
get_entry k l = elim (lookup k l) [ none ↦ (none, l) | some v ↦ (some v, (k, v) ∷ without k l) ]

pub record Inv (c : LruCache) : Type 0 where
  pub distinct : AreDistinct c.cache
  pub old : AreOld c.fresh c.cache
  pub linked : (k : ℕ) → c.map k ≡ id_of (find k c.cache)
  pub sized : c.size ≡ length c.cache

entries-remove : (k : ℕ) (ns : List Node) → map entry (remove k ns) ≡ without k (map entry ns)
unfolding remove without
entries-remove k [] = refl
entries-remove k (n ∷ ns) = ground (arith, entries-remove k ns)

abbrev value_of : Option Node → Option ℕ
value_of none = none
value_of (some n) = some n.value

entries-find : (k : ℕ) (ns : List Node) → value_of (find k ns) ≡ lookup k (map entry ns)
unfolding find lookup
entries-find k [] = refl
entries-find k (n ∷ ns) = ground (arith, entries-find k ns)

key-find : (k : ℕ) (ns : List Node) (n : Node) → find k ns ≡ some n → n.key ≡ k
unfolding find
key-find k [] n e = absurd (ground arith)
key-find k (n' ∷ ns) n e = ground (arith, key-find k ns n)

entries-pop_back :
    (n : Node) (ns : List Node) → map entry (pop_back n ns).1 ≡ drop_last (entry n ∷ map entry ns)
unfolding drop_last
entries-pop_back n [] = refl
entries-pop_back n (n' ∷ ns) = ap (◌∷◌ (entry n)) (entries-pop_back n' ns)

-- What an operation leaves, against the entries it should leave.
pub record Leaves (c c' : LruCache) (l : List Entry) : Type 0 where
  pub inv : Inv c'
  pub same_cap : c'.cap ≡ c.cap
  pub entries_are : entries c' ≡ l

module _ (c : LruCache) (k v : ℕ) (h : Inv c) where
  evict-Leaves :
      (b : LruCache) (n : Node) (ns : List Node)
      → AreDistinct (n ∷ ns)
      → AreOld b.fresh (n ∷ ns)
      → ((j : ℕ) → b.map j ≡ id_of (find j (n ∷ ns)))
      → b.size ≡ suc (length ns)
      → b.cap ≡ c.cap
      → Leaves c (evict b n ns) (
          if ltb c.cap (suc (length ns))
          then drop_last (entry n ∷ map entry ns)
          else entry n ∷ map entry ns)
  unfolding evict
  evict-Leaves b n ns d o lk sz cp = elim (Bool-cases (ltb b.cap b.size)) [
    | inl e ↦
        let e' : ltb c.cap (suc (length ns)) ≡ true = ground arith in
        rw (e, e')
          (record {
            inv = record {
              distinct = AreDistinct-pop_back 0 n ns d;
              old = AreOld-pop_back b.fresh n ns o;
              linked = λ j. ground (arith, lk j, find-pop_back j n ns d);
              sized = ground (arith, length-pop_back n ns);
            };
            same_cap = cp;
            entries_are = entries-pop_back n ns;
          })
    | inr e ↦
        let e' : ltb c.cap (suc (length ns)) ≡ false = ground arith in
        rw (e, e')
          (record {
            inv = record { distinct = d; old = o; linked = lk; sized = sz };
            same_cap = cp;
            entries_are = refl;
          })
  ]

  push-Leaves :
      Leaves c
        (push k v c (remove k c.cache) (suc (length (remove k c.cache))))
        (put_entry c.cap k v (entries c))
  unfolding push put_entry find
  push-Leaves =
      let ns = remove k c.cache in
      rw (sym (entries-remove k c.cache), length-map entry ns)
        (evict-Leaves
          (record c {
            map = update c.map k (some c.fresh);
            size = suc (length ns);
            fresh = c.fresh + 1;
          })
          (record { id = c.fresh; key = k; value = v }) ns
          (IsNew-remove_key k c.fresh c.cache h.old, AreDistinct-remove k c.cache h.distinct)
          (omega arith, AreOld-add c.fresh ns (AreOld-remove k c.fresh c.cache h.old))
          (λ j. ground (arith, h.linked j, find-remove k j c.cache)) refl refl)

  put-push : put k v c ≡ some (push k v c (remove k c.cache) (suc (length (remove k c.cache))))
  unfolding put
  put-push = elim (Option-cases (find k c.cache)) [
    | inl e ↦ ground (arith, h.linked k, ap id_of e, h.sized, remove-none k c.cache e)
    | inr (n, e) ↦
        let found : id_of (find k c.cache) ≡ some n.id = ap id_of e in
        ground (
          arith,
          h.linked k,
          found,
          h.sized,
          erase_found k n.id c.cache h.distinct found,
          length-remove k n.id c.cache h.distinct found,
        )
  ]

  -- `put` leaves the entries that it should.
  pub put_refines :
      (c' : LruCache) × ((put k v c ≡ some c') × Leaves c c' (put_entry c.cap k v (entries c)))
  put_refines =
      (push k v c (remove k c.cache) (suc (length (remove k c.cache))), (put-push, push-Leaves))

module _ (c : LruCache) (k : ℕ) (h : Inv c) where
  pub get_refines :
      (c' : LruCache) × ((get k c ≡ some ((get_entry k (entries c)).0, c'))
        × Leaves c c' (get_entry k (entries c)).1)
  unfolding get get_entry find
  get_refines = elim (Option-cases (find k c.cache)) [
    | inl e ↦ (
      c,
      (
        ground (arith, h.linked k, ap id_of e, ap value_of e, entries-find k c.cache),
        record {
          inv = h;
          same_cap = refl;
          entries_are = ground (arith, ap value_of e, entries-find k c.cache);
        },
      ),
    )
    | inr (n, e) ↦
        let moved = record c { cache = n ∷ remove k c.cache } in
        let key : n.key ≡ k = key-find k c.cache n e in
        let value : lookup k (entries c) ≡ some n.value =
          sym (entries-find k c.cache) ∙ ap value_of e in
        (
          moved,
          (
            ground (
              arith,
              h.linked k,
              ap id_of e,
              value,
              erase_found k n.id c.cache h.distinct (ap id_of e),
            ),
            record {
              inv = record {
                distinct = (
                  subst (λ j. IsNew j n.id (remove k c.cache)) (sym key)
                      (IsNew-found k c.cache n h.distinct e),
                  AreDistinct-remove k c.cache h.distinct,
                );
                old = (
                  AreOld-find c.fresh k c.cache n h.old e,
                  AreOld-remove k c.fresh c.cache h.old,
                );
                linked = λ j. ground (arith, h.linked j, find-remove k j c.cache);
                sized =
                    ground (arith, h.sized, length-remove k n.id c.cache h.distinct (ap id_of e));
              };
              same_cap = refl;
              entries_are = ground (arith, value, entries-remove k c.cache);
            },
          ),
        )
  ]
