-- ===== src/Invert2/Build.antt =====
-- What `createInvertTable` of invert_table/invert_table.h leaves in the map and in the vector.
use learning_cpp.Prelude.{
  ℕ, zero, suc, ◌+◌, ◌<◌, ℤ, pos, ◌≤ℤ◌, ◌<ℤ◌, ◌==ℤ◌, eq_of_parts, ◌≡◌, refl, sym, ◌∙◌, inl, inr, ap,
  arith, true, false, Bool, Bool-cases, Option, none, some, if◌then◌else◌, List, [], ◌∷◌, ◌++◌, map,
  All, append_assoc, append-nil,
}
use learning_cpp.Prelude.Runs.{
  is_at, count_at, count_below, ByKey, count_below_of_le, count_at_of_lt,
}
use learning_cpp.Invert2.Node.{StPidKidInfo2, IndexNode, copy, add_square}
use learning_cpp.Invert2.Maps.{assign, find, find-assign}
use learning_cpp.Invert2.Table.{
  InvertTable2, Builder, rooted, build_step, build_loop, create_invert_table,
}

abbrev pub pid_of : StPidKidInfo2 → ℤ
pid_of info = info.pid

abbrev pub has_pid : ℤ → StPidKidInfo2 → Bool
has_pid k info = is_at pid_of k info

-- The total weight of an index, on top of another.
unfoldable pub weigh : ℤ → List StPidKidInfo2 → ℤ → ℤ
weigh k [] total = total
weigh k (x ∷ l) total =
    weigh k l (elim (x.pid ==ℤ k) [ true ↦ add_square total x.weight | false ↦ total ])

weigh_of_lt :
    (p k : ℤ) (l : List StPidKidInfo2) (total : ℤ)
    → All (λ y. p ≤ℤ y.pid) l
    → k <ℤ p
    → weigh k l total ≡ total
unfolding weigh
weigh_of_lt p k [] total h e = refl
weigh_of_lt p k (x ∷ l) total h e = ground (arith, weigh_of_lt p k l total)

abbrev grown : ℤ → List StPidKidInfo2 → IndexNode → IndexNode
grown k l n = record n {
  count = n.count + count_at pid_of k l;
  total_weight = weigh k l n.total_weight;
}

module _ (root : ℤ → ℤ) where
  pub vec-build_loop :
      (i : ℕ) (l : List StPidKidInfo2) (b : Builder)
      → (build_loop root i l b).vec ≡ b.vec ++ map copy l
  unfolding build_loop build_step
  vec-build_loop i [] b = sym (append-nil b.vec)
  vec-build_loop i (x ∷ l) b =
      vec-build_loop (i + 1) l _ ∙ append_assoc b.vec (copy x ∷ []) (map copy l)

  -- The map once the last node is stored, too.
  abbrev pub closed_map : Builder → List (ℤ × IndexNode)
  closed_map b = assign b.node.id (rooted root b.node) b.map

  -- The stored node of an index whose triples begin at position `i` or later; `old` if it has none.
  abbrev pub node_from : ℤ → ℕ → List StPidKidInfo2 → Option IndexNode → Option IndexNode
  node_from k i l old = elim (count_at pid_of k l) [
    | zero ↦ old
    | suc n ↦ some (record {
      id = k;
      offset = i + count_below pid_of k l;
      count = suc n;
      total_weight = root (weigh k l (pos 0));
    })
  ]

  same_step :
      (i : ℕ) (x : StPidKidInfo2) (b : Builder)
      → 0 < i
      → (b.node.id ==ℤ x.pid) ≡ true
      → build_step root i x b ≡ record b {
        node = record b.node {
          count = b.node.count + 1;
          total_weight = add_square b.node.total_weight x.weight;
        };
        vec = b.vec ++ copy x ∷ [];
      }
  unfolding build_step
  same_step i x b h e = ground arith

  abbrev first_node : ℕ → StPidKidInfo2 → IndexNode
  first_node i x = record {
    id = x.pid;
    offset = i;
    count = 1;
    total_weight = add_square (pos 0) x.weight;
  }

  next_step :
      (i : ℕ) (x : StPidKidInfo2) (b : Builder)
      → 0 < i
      → (b.node.id ==ℤ x.pid) ≡ false
      → build_step root i x b
        ≡ record { node = first_node i x; map = closed_map b; vec = b.vec ++ copy x ∷ [] }
  unfolding build_step
  next_step i x b h e = ground arith

  first_step :
      (x : StPidKidInfo2) (b : Builder)
      → build_step root 0 x b ≡ record b { node = first_node 0 x; vec = b.vec ++ copy x ∷ [] }
  unfolding build_step
  first_step x b = ground arith

  -- The map once the loop has run over `l`, where `n` is the node in work before it.
  abbrev ahead : ℤ → ℕ → List StPidKidInfo2 → IndexNode → Option IndexNode → Option IndexNode
  ahead k i l n old = if n.id ==ℤ k then some (rooted root (grown k l n)) else node_from k i l old

  module _ (k : ℤ) (i : ℕ) (x : StPidKidInfo2) (l : List StPidKidInfo2) (n : IndexNode)
      (old : Option IndexNode) (low : All (λ y. x.pid ≤ℤ y.pid) l) where
    same_node :
        (n.id ==ℤ x.pid) ≡ true
        → ahead k
            (i + 1)
            l
            (record n { count = n.count + 1; total_weight = add_square n.total_weight x.weight })
            old
          ≡ ahead k i (x ∷ l) n old
    unfolding count_at count_below weigh
    same_node e = ground (arith, count_at_of_lt pid_of x.pid k l low)

    next_node :
        (n.id ==ℤ x.pid) ≡ false
        → n.id ≤ℤ x.pid
        → ahead k (i + 1) l (first_node i x) (if n.id ==ℤ k then some (rooted root n) else old)
          ≡ ahead k i (x ∷ l) n old
    unfolding count_at count_below weigh
    next_node e le = ground (
      arith,
      count_at_of_lt pid_of x.pid k l low,
      count_below_of_le pid_of x.pid k l low,
      weigh_of_lt x.pid k l n.total_weight low,
      eq_of_parts x.pid k,
    )

  find-build_loop :
      (k : ℤ) (i : ℕ) (l : List StPidKidInfo2) (b : Builder)
      → 0 < i
      → All (λ y. b.node.id ≤ℤ y.pid) l
      → ByKey pid_of l
      → find k (closed_map (build_loop root i l b)) ≡ ahead k i l b.node (find k b.map)
  unfolding build_loop count_at weigh
  find-build_loop k i [] b h low s = rw find-assign (ground arith)
  find-build_loop k i (x ∷ l) b h low s = elim (Bool-cases (b.node.id ==ℤ x.pid)) [
    | inl e ↦
        ap (λ c. find k (closed_map (build_loop root (i + 1) l c))) (same_step i x b h e)
        ∙ find-build_loop k (i + 1) l _ (omega arith) low.1 s.1
        ∙ same_node k i x l b.node (find k b.map) s.0 e
    | inr e ↦
        ap (λ c. find k (closed_map (build_loop root (i + 1) l c))) (next_step i x b h e)
        ∙ find-build_loop k (i + 1) l _ (omega arith) s.0 s.1
        ∙ rw find-assign (next_node k i x l b.node (find k b.map) s.0 e low.0)
  ]

  first_ahead :
      (k : ℤ) (x : StPidKidInfo2) (l : List StPidKidInfo2)
      → ByKey pid_of (x ∷ l)
      → ahead k 1 l (first_node 0 x) none ≡ node_from k 0 (x ∷ l) none
  unfolding count_at count_below weigh
  first_ahead k x l h = ground (
    arith,
    count_at_of_lt pid_of x.pid k l h.0,
    count_below_of_le pid_of x.pid k l h.0,
    eq_of_parts x.pid k,
  )

  -- `createInvertTable` on triples that are ordered by index, when the map is empty before it.
  pub find-create_invert_table :
      (k : ℤ) (t : InvertTable2) (vec : List StPidKidInfo2)
      → t.index_map ≡ []
      → ByKey pid_of vec
      → find k (create_invert_table root t vec).index_map ≡ node_from k 0 vec none
  unfolding create_invert_table build_loop find count_at
  find-create_invert_table k t [] e h = rw e
  find-create_invert_table k t (x ∷ l) e h =
      ap (λ c. find k (closed_map (build_loop root 1 l c))) (first_step x _)
      ∙ find-build_loop k 1 l _ (omega arith) h.0 h.1
      ∙ rw e (first_ahead k x l h)

  pub vec-create_invert_table :
      (t : InvertTable2) (vec : List StPidKidInfo2)
      → (create_invert_table root t vec).invert_vec ≡ t.invert_vec ++ map copy vec
  unfolding create_invert_table
  vec-create_invert_table t [] = sym (append-nil t.invert_vec)
  vec-create_invert_table t (x ∷ l) = vec-build_loop 0 (x ∷ l) _
