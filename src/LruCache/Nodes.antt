-- ===== src/LruCache/Nodes.antt =====
-- The list of elements of a cache, by key instead of by iterator.
use learning_cpp.Prelude.{
  ℕ, suc, ◌+◌, ◌<◌, ◌≡◌, ◌≢◌, refl, ap, arith, true, false, ◌==◌, Option, none, some, if◌then◌else◌,
  List, [], ◌∷◌, length, inl, inr, Bool-cases,
}
use mathlib.Core.Path.{subst}
use learning_cpp.LruCache.{Node, erase, deref, pop_back}

-- The element with a key, and the others.
unfoldable pub find : ℕ → List Node → Option Node
find k [] = none
find k (n ∷ ns) = let rest = find k ns in if n.key == k then some n else rest

unfoldable pub remove : ℕ → List Node → List Node
remove k [] = []
remove k (n ∷ ns) = let rest = remove k ns in if n.key == k then rest else n ∷ rest

abbrev pub id_of : Option Node → Option ℕ
id_of none = none
id_of (some n) = some n.id

-- No element has the key or the id.
abbrev pub IsNew : ℕ → ℕ → List Node → Type 0
IsNew k i [] = Unit
IsNew k i (n ∷ ns) = ((n.key ≢ k) × (n.id ≢ i)) × IsNew k i ns

abbrev pub AreDistinct : List Node → Type 0
AreDistinct [] = Unit
AreDistinct (n ∷ ns) = IsNew n.key n.id ns × AreDistinct ns

-- All ids are below a bound.
abbrev pub AreOld : ℕ → List Node → Type 0
AreOld f [] = Unit
AreOld f (n ∷ ns) = (n.id < f) × AreOld f ns

find-IsNew : (k i : ℕ) (ns : List Node) → IsNew k i ns → find k ns ≡ none
unfolding find
find-IsNew k i [] h = refl
find-IsNew k i (n ∷ ns) h = ground (arith, find-IsNew k i ns h.1)

remove-IsNew : (k i : ℕ) (ns : List Node) → IsNew k i ns → remove k ns ≡ ns
unfolding remove
remove-IsNew k i [] h = refl
remove-IsNew k i (n ∷ ns) h = ground (arith, remove-IsNew k i ns h.1)

id_of_other : (k i j : ℕ) (ns : List Node) → IsNew k i ns → id_of (find j ns) ≢ some i
unfolding find
id_of_other k i j [] h e = ground arith
id_of_other k i j (n ∷ ns) h e = ground (arith, id_of_other k i j ns h.1)

-- The iterator of a key's element erases what the key removes, and points to what the key finds.
pub erase_found :
    (k i : ℕ) (ns : List Node)
    → AreDistinct ns
    → id_of (find k ns) ≡ some i
    → (erase i ns ≡ some (remove k ns)) × (deref i ns ≡ find k ns)
unfolding find remove
erase_found k i [] h e = absurd (ground arith)
erase_found k i (n ∷ ns) h e = (
  ground (
    arith,
    remove-IsNew n.key n.id ns h.0,
    id_of_other n.key n.id k ns h.0,
    erase_found k i ns h.1,
  ),
  ground (arith, id_of_other n.key n.id k ns h.0, erase_found k i ns h.1),
)

module _ (k : ℕ) where
  pub IsNew-remove : (j i : ℕ) (ns : List Node) → IsNew j i ns → IsNew j i (remove k ns)
  unfolding remove
  IsNew-remove j i [] h = tt
  IsNew-remove j i (n ∷ ns) h =
      elim (n.key == k) as (λ b. IsNew j i (if b then remove k ns else n ∷ remove k ns)) [
        | true ↦ IsNew-remove j i ns h.1
        | false ↦ (h.0, IsNew-remove j i ns h.1)
      ]

  pub AreDistinct-remove : (ns : List Node) → AreDistinct ns → AreDistinct (remove k ns)
  unfolding remove
  AreDistinct-remove [] h = tt
  AreDistinct-remove (n ∷ ns) h =
      elim (n.key == k) as (λ b. AreDistinct (if b then remove k ns else n ∷ remove k ns)) [
        | true ↦ AreDistinct-remove ns h.1
        | false ↦ (IsNew-remove n.key n.id ns h.0, AreDistinct-remove ns h.1)
      ]

  pub AreOld-remove : (f : ℕ) (ns : List Node) → AreOld f ns → AreOld f (remove k ns)
  unfolding remove
  AreOld-remove f [] h = tt
  AreOld-remove f (n ∷ ns) h =
      elim (n.key == k) as (λ b. AreOld f (if b then remove k ns else n ∷ remove k ns)) [
        | true ↦ AreOld-remove f ns h.1
        | false ↦ (h.0, AreOld-remove f ns h.1)
      ]

  -- A new id makes an element of the key new to those that are left.
  pub IsNew-remove_key : (f : ℕ) (ns : List Node) → AreOld f ns → IsNew k f (remove k ns)
  unfolding remove
  IsNew-remove_key f [] h = tt
  IsNew-remove_key f (n ∷ ns) h = elim (Bool-cases (n.key == k)) [
    | inl e ↦ rw e (IsNew-remove_key f ns h.1)
    | inr e ↦ rw e (((λ q. ground arith), (λ q. omega arith)), IsNew-remove_key f ns h.1)
  ]

  pub find-remove :
      (j : ℕ) (ns : List Node) → find j (remove k ns) ≡ (if k == j then none else find j ns)
  unfolding find remove
  find-remove j [] = ground arith
  find-remove j (n ∷ ns) = ground (arith, find-remove j ns)

  pub remove-none : (ns : List Node) → find k ns ≡ none → remove k ns ≡ ns
  unfolding find remove
  remove-none [] h = refl
  remove-none (n ∷ ns) h = ground (arith, remove-none ns)

  pub length-remove :
      (i : ℕ) (ns : List Node)
      → AreDistinct ns
      → id_of (find k ns) ≡ some i
      → length (remove k ns) + 1 ≡ length ns
  unfolding find remove
  length-remove i [] h e = absurd (ground arith)
  length-remove i (n ∷ ns) h e =
      ground (arith, remove-IsNew n.key n.id ns h.0, length-remove i ns h.1)

pub AreOld-add : (f : ℕ) (ns : List Node) → AreOld f ns → AreOld (f + 1) ns
AreOld-add f [] h = tt
AreOld-add f (n ∷ ns) h = (omega arith, AreOld-add f ns h.1)

-- Without the last element.
module _ (f : ℕ) where
  IsNew-pop_back :
      (j i : ℕ) (n : Node) (ns : List Node) → IsNew j i (n ∷ ns) → IsNew j i (pop_back n ns).1
  IsNew-pop_back j i n [] h = tt
  IsNew-pop_back j i n (n' ∷ ns) h = (h.0, IsNew-pop_back j i n' ns h.1)

  pub AreDistinct-pop_back :
      (n : Node) (ns : List Node) → AreDistinct (n ∷ ns) → AreDistinct (pop_back n ns).1
  AreDistinct-pop_back n [] h = tt
  AreDistinct-pop_back n (n' ∷ ns) h =
      (IsNew-pop_back n.key n.id n' ns h.0, AreDistinct-pop_back n' ns h.1)

  pub AreOld-pop_back : (n : Node) (ns : List Node) → AreOld f (n ∷ ns) → AreOld f (pop_back n ns).1
  AreOld-pop_back n [] h = tt
  AreOld-pop_back n (n' ∷ ns) h = (h.0, AreOld-pop_back n' ns h.1)

pub length-pop_back : (n : Node) (ns : List Node) → length (pop_back n ns).1 ≡ length ns
length-pop_back n [] = refl
length-pop_back n (n' ∷ ns) = ap suc (length-pop_back n' ns)

IsNew-last : (j i : ℕ) (n : Node) (ns : List Node) → IsNew j i (n ∷ ns) → (pop_back n ns).0.key ≢ j
IsNew-last j i n [] h = h.0.0
IsNew-last j i n (n' ∷ ns) h = IsNew-last j i n' ns h.1

pub find-pop_back :
    (j : ℕ) (n : Node) (ns : List Node)
    → AreDistinct (n ∷ ns)
    → find j (pop_back n ns).1 ≡ (if (pop_back n ns).0.key == j then none else find j (n ∷ ns))
unfolding find
find-pop_back j n [] h = ground arith
find-pop_back j n (n' ∷ ns) h =
    ground (arith, find-pop_back j n' ns h.1, IsNew-last n.key n.id n' ns h.0)

pub AreOld-find :
    (f k : ℕ) (ns : List Node) (n : Node) → AreOld f ns → find k ns ≡ some n → n.id < f
unfolding find
AreOld-find f k [] n h e = absurd (ground arith)
AreOld-find f k (n' ∷ ns) n h e = ground (arith, AreOld-find f k ns n h.1)

-- The element that is found is new to the others.
pub IsNew-found :
    (k : ℕ) (ns : List Node) (n : Node)
    → AreDistinct ns
    → find k ns ≡ some n
    → IsNew k n.id (remove k ns)
unfolding find remove
IsNew-found k [] n h e = absurd (ground arith)
IsNew-found k (n' ∷ ns) n h e = elim (Bool-cases (n'.key == k)) [
  | inl t ↦
      let same : n' ≡ n = ground arith in
      let key : n'.key ≡ k = ground arith in
      let new : IsNew k n.id ns =
        subst (λ j. IsNew j n.id ns) key (subst (λ x. IsNew n'.key x.id ns) same h.0) in
      rw (t, remove-IsNew k n.id ns new) new
  | inr t ↦
      let there : find k ns ≡ some n = ground arith in
      rw t (
        ((λ q. ground arith), (λ q. ground (arith, id_of_other n'.key n'.id k ns h.0))),
        IsNew-found k ns n h.1 there,
      )
]
