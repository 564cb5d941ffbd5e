-- ===== src/Invert2/Distinct.antt =====
-- The map that `createInvertTable` of invert_table/invert_table.h builds has each index once, and each
-- node has its own index and at least one triple; so `readIndex` gets it back from the file.
use learning_cpp.Prelude.{
  ℕ, ◌+◌, ◌<◌, ℤ, ◌==ℤ◌, ==ℤ_iff, ◌≡◌, refl, sym, ◌⊎◌, inl, inr, arith, Bool-cases, none, some,
  List, [], ◌∷◌,
}
use learning_cpp.Invert2.Node.{StPidKidInfo2, IndexNode}
use learning_cpp.Invert2.Maps.{assign, find, find-assign}
use learning_cpp.Invert2.Table.{
  InvertTable2, Builder, rooted, build_step, build_loop, create_invert_table, second_nodes,
  read_nodes,
}
use learning_cpp.Invert2.Build.{closed_map}

abbrev pub Distinct : List (ℤ × IndexNode) → Type 0
Distinct [] = Unit
Distinct ((k, n) ∷ m) = (n.id ≡ k) × (0 < n.count) × (find k m ≡ none) × Distinct m

assign-Distinct :
    (n : IndexNode) (m : List (ℤ × IndexNode))
    → 0 < n.count
    → Distinct m
    → Distinct (assign n.id n m)
unfolding assign find
assign-Distinct n [] h d = (refl, h, refl, tt)
assign-Distinct n ((j, old) ∷ m) h d = elim (Bool-cases (j ==ℤ n.id)) [
  | inl e ↦ rw e (sym ((==ℤ_iff j n.id).0 e), h, d.2, d.3)
  | inr e ↦ rw e (
    d.0,
    d.1,
    rw find-assign (ground (arith, ==ℤ_iff j n.id, ==ℤ_iff n.id j)),
    assign-Distinct n m h d.3,
  )
]

module _ (root : ℤ → ℤ) where
  -- After a turn of the loop.
  abbrev Grown : Builder → Type 0
  Grown b = (0 < b.node.count) × Distinct b.map

  build_step-Grown :
      (i : ℕ) (x : StPidKidInfo2) (b : Builder)
      → (i ≡ 0) ⊎ (0 < b.node.count)
      → Distinct b.map
      → Grown (build_step root i x b)
  unfolding build_step
  build_step-Grown i x b h d = ground (arith, assign-Distinct (rooted root b.node) b.map)

  build_loop-Distinct :
      (i : ℕ) (x : StPidKidInfo2) (l : List StPidKidInfo2) (b : Builder)
      → (i ≡ 0) ⊎ (0 < b.node.count)
      → Distinct b.map
      → Distinct (closed_map root (build_loop root i (x ∷ l) b))
  unfolding build_loop
  build_loop-Distinct i x [] b h d =
      let g = build_step-Grown i x b h d in assign-Distinct _ _ g.0 g.1
  build_loop-Distinct i x (y ∷ l) b h d =
      let g = build_step-Grown i x b h d in
      build_loop-Distinct (i + 1) y l (build_step root i x b) (inr g.0) g.1

  pub create_invert_table-Distinct :
      (t : InvertTable2) (vec : List StPidKidInfo2)
      → t.index_map ≡ []
      → Distinct (create_invert_table root t vec).index_map
  unfolding create_invert_table
  create_invert_table-Distinct t [] e = rw e tt
  create_invert_table-Distinct t (x ∷ l) e = build_loop-Distinct 0 x l _ (inl refl) (rw e tt)

-- `readIndex` on a file that `writeIndex` wrote.
pub find-read_nodes :
    (k : ℤ) (m old : List (ℤ × IndexNode))
    → Distinct m
    → find k (read_nodes (second_nodes m) old)
      ≡ elim (find k m) [ none ↦ find k old | some n ↦ some n ]
unfolding read_nodes find
find-read_nodes k [] old d = refl
find-read_nodes k ((j, n) ∷ m) old d =
    ground
      (arith, find-read_nodes k m (assign n.id n old) d.3, find-assign k n.id n old, ==ℤ_iff j k)
