-- ===== src/Invert2/Creator/Orders.antt =====
-- The three comparators of invert_table/invert_table.h, and a list that is sorted by one of them.
use learning_cpp.Prelude.{
  ℤ, ◌≤ℤ◌, ==ℤ_iff, ◌≡◌, refl, arith, true, false, inl, inr, Bool-cases, if◌then◌else◌, List, [],
  ◌∷◌, All, select,
}
use learning_cpp.Prelude.Runs.{ByKey}
use learning_cpp.Invert.Node.{PidKidInfo, less}
use learning_cpp.Invert.Sort.{less_trans_not}
use learning_cpp.Invert2.Node.{StPidKidInfo2}
use learning_cpp.Invert2.Build.{pid_of, has_pid}
use learning_cpp.Invert2.Creator.{SortMethod, insert, sort, less_of}

module _ (m : SortMethod) where
  abbrev pub NotBefore : StPidKidInfo2 → StPidKidInfo2 → Type 0
  NotBefore x y = less_of m y x ≡ false

  abbrev pub IsSorted : List StPidKidInfo2 → Type 0
  IsSorted [] = Unit
  IsSorted (x ∷ xs) = All (NotBefore x) xs × IsSorted xs

NotBefore-pid : (m : SortMethod) (x y : StPidKidInfo2) → NotBefore m x y → x.pid ≤ℤ y.pid
unfolding less_of
NotBefore-pid SortMethod.by_index x y h = ground arith
NotBefore-pid SortMethod.by_id x y h = ground arith
NotBefore-pid SortMethod.by_weight x y h = ground arith

-- The triple without its second weight, which the order by weight does not read.
triple : StPidKidInfo2 → PidKidInfo
triple x = record { pid = x.pid; kid = x.kid; weight = x.weight }

NotBefore-trans :
    (m : SortMethod) (x y z : StPidKidInfo2) → NotBefore m x y → NotBefore m y z → NotBefore m x z
unfolding less_of less triple
NotBefore-trans SortMethod.by_index x y z h k = ground arith
NotBefore-trans SortMethod.by_id x y z h k = ground arith
NotBefore-trans SortMethod.by_weight x y z h k = less_trans_not (triple x) (triple y) (triple z) h k

NotBefore-of_less : (m : SortMethod) (x y : StPidKidInfo2) → less_of m y x ≡ true → NotBefore m y x
unfolding less_of
NotBefore-of_less SortMethod.by_index x y h = ground arith
NotBefore-of_less SortMethod.by_id x y h = ground arith
NotBefore-of_less SortMethod.by_weight x y h = ground arith

module _ (m : SortMethod) (x : StPidKidInfo2) where
  All-insert :
      (P : StPidKidInfo2 → Type 0) (l : List StPidKidInfo2)
      → P x
      → All P l
      → All P (insert (less_of m) x l)
  unfolding insert
  All-insert P [] p h = (p, tt)
  All-insert P (y ∷ l) p h = elim (Bool-cases (less_of m y x)) [
    | inl b ↦ rw b (h.0, All-insert P l p h.1)
    | inr b ↦ rw b (p, h)
  ]

  All-trans :
      (y : StPidKidInfo2) (l : List StPidKidInfo2)
      → NotBefore m x y
      → All (NotBefore m y) l
      → All (NotBefore m x) l
  All-trans y [] b h = tt
  All-trans y (z ∷ l) b h = (NotBefore-trans m x y z b h.0, All-trans y l b h.1)

  insert-IsSorted : (l : List StPidKidInfo2) → IsSorted m l → IsSorted m (insert (less_of m) x l)
  unfolding insert
  insert-IsSorted [] h = (tt, tt)
  insert-IsSorted (y ∷ l) h = elim (Bool-cases (less_of m y x)) [
    | inl b ↦
        rw b (All-insert (NotBefore m y) l (NotBefore-of_less m x y b) h.0, insert-IsSorted l h.1)
    | inr b ↦ rw b ((b, All-trans y l b h.0), h)
  ]

  -- What comes before all others goes in front.
  pub insert_front :
      (l : List StPidKidInfo2) → All (NotBefore m x) l → insert (less_of m) x l ≡ x ∷ l
  unfolding insert
  insert_front [] h = refl
  insert_front (y ∷ l) h = rw h.0

  All-select :
      (k : ℤ) (l : List StPidKidInfo2)
      → All (NotBefore m x) l
      → All (NotBefore m x) (select (has_pid k) l)
  All-select k [] h = tt
  All-select k (y ∷ l) h = elim (Bool-cases (has_pid k y)) [
    | inl b ↦ rw (b, All) (h.0, All-select k l h.1)
    | inr b ↦ rw (b, All) (All-select k l h.1)
  ]

  select-insert :
      (k : ℤ) (l : List StPidKidInfo2)
      → IsSorted m l
      → select (has_pid k) (insert (less_of m) x l) ≡ (
          if has_pid k x then insert (less_of m) x (select (has_pid k) l) else select (has_pid k) l)
  unfolding insert
  select-insert k [] h = ground arith
  select-insert k (y ∷ l) h = elim (Bool-cases (less_of m y x)) [
    | inl b ↦ ground (arith, select-insert k l h.1)
    | inr b ↦
        let front =
          insert_front (select (has_pid k) (y ∷ l))
            (All-select k (y ∷ l) (b, All-trans y l b h.0)) in
        ground arith
  ]

pub sort-IsSorted : (m : SortMethod) (l : List StPidKidInfo2) → IsSorted m (sort (less_of m) l)
unfolding sort
sort-IsSorted m [] = tt
sort-IsSorted m (x ∷ l) = insert-IsSorted m x (sort (less_of m) l) (sort-IsSorted m l)

All-pid :
    (m : SortMethod) (x : StPidKidInfo2) (l : List StPidKidInfo2)
    → All (NotBefore m x) l
    → All (λ y. x.pid ≤ℤ y.pid) l
All-pid m x [] h = tt
All-pid m x (y ∷ l) h = (NotBefore-pid m x y h.0, All-pid m x l h.1)

pub IsSorted-ByKey : (m : SortMethod) (l : List StPidKidInfo2) → IsSorted m l → ByKey pid_of l
IsSorted-ByKey m [] h = tt
IsSorted-ByKey m (x ∷ l) h = (All-pid m x l h.0, IsSorted-ByKey m l h.1)

-- An index's triples among the sorted ones are its own triples, sorted.
pub select-sort :
    (m : SortMethod) (k : ℤ) (l : List StPidKidInfo2)
    → select (has_pid k) (sort (less_of m) l) ≡ sort (less_of m) (select (has_pid k) l)
unfolding sort
select-sort m k [] = refl
select-sort m k (x ∷ l) =
    let step = select-insert m x k (sort (less_of m) l) (sort-IsSorted m l) in
    ground (arith, select-sort m k l)

stays :
    (k : ℤ) (x : StPidKidInfo2) (l : List StPidKidInfo2)
    → x.pid ≡ k
    → All (NotBefore SortMethod.by_index x) (select (has_pid k) l)
unfolding less_of
stays k x [] e = tt
stays k x (y ∷ l) e = elim (Bool-cases (has_pid k y)) [
  | inl b ↦ rw (b, All) (ground (arith, ==ℤ_iff y.pid k), stays k x l e)
  | inr b ↦ rw (b, All) (stays k x l e)
]

-- The stable sort by index leaves the triples of an index in their order.
pub sort_by_index :
    (k : ℤ) (l : List StPidKidInfo2)
    → sort (less_of SortMethod.by_index) (select (has_pid k) l) ≡ select (has_pid k) l
unfolding sort
sort_by_index k [] = refl
sort_by_index k (x ∷ l) = elim (Bool-cases (has_pid k x)) [
  | inl b ↦
      let front =
        insert_front SortMethod.by_index x (select (has_pid k) l)
          (stays k x l ((==ℤ_iff x.pid k).0 b)) in
      ground (arith, sort_by_index k l)
  | inr b ↦ ground (arith, sort_by_index k l)
]
