-- ===== src/Invert/Distinct.antt =====
-- The map that `createInvertTable` builds has each index once, and every node has its own index and
-- at least one triple; so `readIndex` gets it back from the file.
use learning_cpp.Prelude.{
  ℕ, ◌+◌, ◌<◌, ℤ, ◌==ℤ◌, ==ℤ_iff, ◌≡◌, refl, sym, ◌⊎◌, inl, inr, arith, Bool-cases, none, some,
  List, [], ◌∷◌,
}
use learning_cpp.Invert.Node.{PidKidInfo, IndexNode}
use learning_cpp.Invert.Table.{Builder, assign, find, build_step, build_loop, nodes_of, read_nodes}
use learning_cpp.Invert.Build.{find-assign, closed_map}

abbrev pub Distinct : List (ℤ × IndexNode) → Type 0
Distinct [] = Unit
Distinct ((k, n) ∷ m) = (n.id ≡ k) × (0 < n.count) × (find k m ≡ none) × Distinct m

assign-Distinct :
    (n : IndexNode) (m : List (ℤ × IndexNode))
    → 0 < n.count
    → Distinct m
    → Distinct (assign n.id n m)
unfolding assign find
assign-Distinct n [] h d = (refl, h, refl, tt)
assign-Distinct n ((j, old) ∷ m) h d = elim (Bool-cases (j ==ℤ n.id)) [
  | inl e ↦ rw e (sym ((==ℤ_iff j n.id).0 e), h, d.2, d.3)
  | inr e ↦ rw e (
    d.0,
    d.1,
    rw find-assign (ground (arith, ==ℤ_iff j n.id, ==ℤ_iff n.id j)),
    assign-Distinct n m h d.3,
  )
]

-- Between two turns of the loop.
record Grows (b : Builder) : Type 0 where
  counted : 0 < b.node.count
  distinct : Distinct b.map

build_step-Grows :
    (i : ℕ) (x : PidKidInfo) (b : Builder)
    → (i ≡ 0) ⊎ (0 < b.node.count)
    → Distinct b.map
    → Grows (build_step i x b)
unfolding build_step
build_step-Grows i x b h d = ground (arith, assign-Distinct b.node b.map)

pub build_loop-Distinct :
    (i : ℕ) (x : PidKidInfo) (l : List PidKidInfo) (b : Builder)
    → (i ≡ 0) ⊎ (0 < b.node.count)
    → Distinct b.map
    → Distinct (closed_map (build_loop i (x ∷ l) b))
unfolding build_loop
build_loop-Distinct i x [] b h d =
    let g = build_step-Grows i x b h d in assign-Distinct _ _ g.counted g.distinct
build_loop-Distinct i x (y ∷ l) b h d =
    let g = build_step-Grows i x b h d in
    build_loop-Distinct (i + 1) y l (build_step i x b) (inr g.counted) g.distinct

-- `readIndex` on a file that `writeIndex` wrote.
pub find-read_nodes :
    (k : ℤ) (m old : List (ℤ × IndexNode))
    → Distinct m
    → find k (read_nodes (nodes_of m) old) ≡ elim (find k m) [ none ↦ find k old | some n ↦ some n ]
unfolding read_nodes find
find-read_nodes k [] old d = refl
find-read_nodes k ((j, n) ∷ m) old d =
    ground
      (arith, find-read_nodes k m (assign n.id n old) d.3, find-assign k n.id n old, ==ℤ_iff j k)
