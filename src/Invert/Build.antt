-- ===== src/Invert/Build.antt =====
-- What the loop of `createInvertTable` leaves in the map and in the vector.
use learning_cpp.Prelude.{
  ℕ, zero, suc, ◌+◌, ◌<◌, ℤ, ◌≤ℤ◌, ◌==ℤ◌, eq_of_parts, ◌≡◌, refl, sym, ◌∙◌, inl, inr, ap, arith,
  true, false, Bool-cases, Option, some, if◌then◌else◌, List, [], ◌∷◌, ◌++◌, map, All, append_assoc,
  append-nil,
}
use learning_cpp.Invert.Node.{PidKidInfo, IndexNode, copy}
use learning_cpp.Prelude.Runs.{count_below_of_le, count_at_of_lt, count_at, count_below}
use learning_cpp.Invert.Groups.{count_pid, count_below_pid, ByPid, pid_of}
use learning_cpp.Invert.Table.{Builder, assign, find, build_step, build_loop}

pub find-assign :
    (k j : ℤ) (n : IndexNode) (m : List (ℤ × IndexNode))
    → find k (assign j n m) ≡ (if j ==ℤ k then some n else find k m)
unfolding find assign
find-assign k j n [] = refl
find-assign k j n ((i, old) ∷ m) = ground (arith, find-assign k j n m)

pub vec-build_loop :
    (i : ℕ) (l : List PidKidInfo) (b : Builder) → (build_loop i l b).vec ≡ b.vec ++ map copy l
unfolding build_loop build_step
vec-build_loop i [] b = sym (append-nil b.vec)
vec-build_loop i (x ∷ l) b =
    vec-build_loop (i + 1) l _ ∙ append_assoc b.vec (copy x ∷ []) (map copy l)

-- The map once the last node is stored, too.
abbrev pub closed_map : Builder → List (ℤ × IndexNode)
closed_map b = assign b.node.id b.node b.map

-- The node of an index whose triples begin at position `i` or later; `old` if it has none.
abbrev pub node_from : ℤ → ℕ → List PidKidInfo → Option IndexNode → Option IndexNode
node_from k i l old = elim (count_pid k l) [
  | zero ↦ old
  | suc n ↦ some (record { id = k; offset = i + count_below_pid k l; count = suc n })
]

abbrev grown : ℤ → List PidKidInfo → IndexNode → IndexNode
grown k l n = record n { count = n.count + count_pid k l }

same_step :
    (i : ℕ) (x : PidKidInfo) (b : Builder)
    → 0 < i
    → (b.node.id ==ℤ x.pid) ≡ true
    → build_step i x b
      ≡ record b { node = record b.node { count = b.node.count + 1 }; vec = b.vec ++ copy x ∷ [] }
unfolding build_step
same_step i x b h e = ground arith

next_step :
    (i : ℕ) (x : PidKidInfo) (b : Builder)
    → 0 < i
    → (b.node.id ==ℤ x.pid) ≡ false
    → build_step i x b ≡ record {
      node = record { id = x.pid; offset = i; count = 1 };
      map = closed_map b;
      vec = b.vec ++ copy x ∷ [];
    }
unfolding build_step
next_step i x b h e = ground arith

module _ (k : ℤ) (i : ℕ) (x : PidKidInfo) (l : List PidKidInfo) (n : IndexNode) where
  same_node :
      (old : Option IndexNode)
      → (n.id ==ℤ x.pid) ≡ true
      → All (λ y. x.pid ≤ℤ y.pid) l
      → (if n.id ==ℤ k
          then some (grown k l (record n { count = n.count + 1 }))
          else node_from k (i + 1) l old)
        ≡ (if n.id ==ℤ k then some (grown k (x ∷ l) n) else node_from k i (x ∷ l) old)
  unfolding count_at count_below
  same_node old e low = ground (arith, count_at_of_lt pid_of x.pid k l low)

  next_node :
      (old : Option IndexNode)
      → (n.id ==ℤ x.pid) ≡ false
      → n.id ≤ℤ x.pid
      → All (λ y. x.pid ≤ℤ y.pid) l
      → (if x.pid ==ℤ k
          then some (grown k l (record { id = x.pid; offset = i; count = 1 }))
          else node_from k (i + 1) l (if n.id ==ℤ k then some n else old))
        ≡ (if n.id ==ℤ k then some (grown k (x ∷ l) n) else node_from k i (x ∷ l) old)
  unfolding count_at count_below
  next_node old e le low = ground (
    arith,
    count_at_of_lt pid_of x.pid k l low,
    count_below_of_le pid_of x.pid k l low,
    eq_of_parts x.pid k,
  )

pub find-build_loop :
    (k : ℤ) (i : ℕ) (l : List PidKidInfo) (b : Builder)
    → 0 < i
    → All (λ y. b.node.id ≤ℤ y.pid) l
    → ByPid l
    → find k (closed_map (build_loop i l b))
      ≡ (if b.node.id ==ℤ k then some (grown k l b.node) else node_from k i l (find k b.map))
unfolding build_loop count_at
find-build_loop k i [] b h low s = rw find-assign (ground arith)
find-build_loop k i (x ∷ l) b h low s = elim (Bool-cases (b.node.id ==ℤ x.pid)) [
  | inl e ↦
      ap (λ c. find k (closed_map (build_loop (i + 1) l c))) (same_step i x b h e)
      ∙ find-build_loop k (i + 1) l _ (omega arith) low.1 s.1
      ∙ same_node k i x l b.node (find k b.map) e s.0
  | inr e ↦
      ap (λ c. find k (closed_map (build_loop (i + 1) l c))) (next_step i x b h e)
      ∙ find-build_loop k (i + 1) l _ (omega arith) s.0 s.1
      ∙ rw find-assign (next_node k i x l b.node (find k b.map) e low.0 s.0)
]
