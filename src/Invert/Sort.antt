-- ===== src/Invert/Sort.antt =====
-- `std::sort` by `CmpPidKidInfoByPidWeight`, as `createInvertTable` of invert/invert.hpp calls it.
-- The order is total on the triples, so a sorted arrangement is unique, and insertion computes it.
use mathlib.Core.List.{Perm, Permᴰ}
use mathlib.Core.Logic.{∥∥₁_elim}
use mathlib.Core.List.Perm
use learning_cpp.Prelude.{
  ◌≤ℤ◌, ◌<ℤ◌, eq_of_parts, true, false, ◌≡◌, refl, sym, ◌⊎◌, inl, inr, arith, if◌then◌else◌,
  Bool-cases, ◌∙◌, List, [], ◌∷◌, All, length, suc,
}
use learning_cpp.Invert.Node.{PidKidInfo, less}

unfoldable pub insert : PidKidInfo → List PidKidInfo → List PidKidInfo
insert x [] = x ∷ []
insert x (y ∷ ys) = let rest = insert x ys in if less y x then y ∷ rest else x ∷ y ∷ ys

unfoldable pub sort : List PidKidInfo → List PidKidInfo
unfolding insert
sort [] = []
sort (x ∷ xs) = insert x (sort xs)

-- What `std::sort` promises: no later element is less than an earlier one.
abbrev pub IsSorted : List PidKidInfo → Type 0
IsSorted [] = Unit
IsSorted (x ∷ xs) = All (λ y. less y x ≡ false) xs × IsSorted xs

-- The order that `less` stands for, in words that the arithmetic reads.
abbrev pub Before : PidKidInfo → PidKidInfo → Type 0
Before x y =
    (x.pid <ℤ y.pid)
    ⊎ (x.pid ≡ y.pid) × ((y.weight <ℤ x.weight) ⊎ (x.weight ≡ y.weight) × (x.kid ≤ℤ y.kid))

Before-of_not_less : (x y : PidKidInfo) → less y x ≡ false → Before x y
unfolding less
Before-of_not_less x y h = ground (arith, eq_of_parts x.pid y.pid, eq_of_parts x.weight y.weight)

not_less_of_Before : (x y : PidKidInfo) → Before x y → less y x ≡ false
unfolding less
not_less_of_Before x y h = ground arith

Before-trans : (x y z : PidKidInfo) → Before x y → Before y z → Before x z
Before-trans x y z (inl p) (inl q) = inl (omega arith)
Before-trans x y z (inl p) (inr (e, _)) = inl (rw (← e) p)
Before-trans x y z (inr (e, _)) (inl q) = inl (rw e q)
Before-trans x y z (inr (e, inl p)) (inr (f, inl q)) = inr (e ∙ f, inl (omega arith))
Before-trans x y z (inr (e, inl p)) (inr (f, inr (g, _))) = inr (e ∙ f, inl (rw (← g) p))
Before-trans x y z (inr (e, inr (g, _))) (inr (f, inl q)) = inr (e ∙ f, inl (rw g q))
Before-trans x y z (inr (e, inr (g, p))) (inr (f, inr (k, q))) =
    inr (e ∙ f, inr (g ∙ k, omega arith))

pub less_trans_not : (x y z : PidKidInfo) → less y x ≡ false → less z y ≡ false → less z x ≡ false
less_trans_not x y z h k =
    not_less_of_Before x z
      (Before-trans x y z (Before-of_not_less x y h) (Before-of_not_less y z k))

less_asymm : (x y : PidKidInfo) → less y x ≡ true → less x y ≡ false
unfolding less
less_asymm x y h = ground arith

less_total_eq : (x y : PidKidInfo) → less y x ≡ false → less x y ≡ false → x ≡ y
unfolding less
less_total_eq x y h k =
    ground (arith, eq_of_parts x.pid y.pid, eq_of_parts x.kid y.kid, eq_of_parts x.weight y.weight)

pub less-pid : (x y : PidKidInfo) → less y x ≡ false → x.pid ≤ℤ y.pid
unfolding less
less-pid x y h = ground arith

All-insert {ℓ} :
    (P : PidKidInfo → Type ℓ) (x : PidKidInfo) (l : List PidKidInfo)
    → P x
    → All P l
    → All P (insert x l)
unfolding insert
All-insert P x [] px h = (px, h)
All-insert P x (y ∷ ys) px h = elim (Bool-cases (less y x)) [
  | inl b ↦ rw b (h.0, All-insert P x ys px h.1)
  | inr b ↦ rw b (px, h)
]

All-trans :
    (x y : PidKidInfo) (l : List PidKidInfo)
    → less y x ≡ false
    → All (λ z. less z y ≡ false) l
    → All (λ z. less z x ≡ false) l
All-trans x y [] b h = tt
All-trans x y (z ∷ l) b h = (less_trans_not x y z b h.0, All-trans x y l b h.1)

insert-IsSorted : (x : PidKidInfo) (l : List PidKidInfo) → IsSorted l → IsSorted (insert x l)
unfolding insert
insert-IsSorted x [] h = (tt, tt)
insert-IsSorted x (y ∷ ys) h = elim (Bool-cases (less y x)) [
  | inl b ↦
      rw b
        (All-insert (λ z. less z y ≡ false) x ys (less_asymm x y b) h.0, insert-IsSorted x ys h.1)
  | inr b ↦ rw b ((b, All-trans x y ys b h.0), h)
]

pub sort-IsSorted : (l : List PidKidInfo) → IsSorted (sort l)
unfolding sort
sort-IsSorted [] = tt
sort-IsSorted (x ∷ l) = insert-IsSorted x (sort l) (sort-IsSorted l)

insert-perm : (x : PidKidInfo) (l : List PidKidInfo) → Perm (insert x l) (x ∷ l)
unfolding insert
insert-perm x [] = Perm.refl (x ∷ [])
insert-perm x (y ∷ ys) = elim (Bool-cases (less y x)) [
  | inl b ↦ rw b (Perm.trans (Perm.cons y (insert-perm x ys)) (Perm.swap x y ys))
  | inr b ↦ rw b (Perm.refl (x ∷ y ∷ ys))
]

pub sort-perm : (l : List PidKidInfo) → Perm (sort l) l
unfolding sort
sort-perm [] = Perm.refl []
sort-perm (x ∷ l) = Perm.trans (insert-perm x (sort l)) (Perm.cons x (sort-perm l))

insert_comm :
    (x y : PidKidInfo) (l : List PidKidInfo) → insert x (insert y l) ≡ insert y (insert x l)
unfolding insert
insert_comm x y [] = ground (arith, less_asymm x y, less_total_eq x y)
insert_comm x y (z ∷ l) = ground (
  arith,
  less_asymm x y,
  less_total_eq x y,
  less_trans_not x y z,
  less_trans_not y x z,
  less_asymm z x,
  less_asymm z y,
  insert_comm x y l,
)

sort-permᴰ : {xs ys : List PidKidInfo} → Permᴰ xs ys → sort xs ≡ sort ys
unfolding sort
sort-permᴰ Permᴰ.nil = refl
sort-permᴰ (Permᴰ.cons {a} {b} {l₁} {l₂} e p) = cc (sort-permᴰ p, e)
sort-permᴰ (Permᴰ.swap {a} {b} {a'} {b'} {l} e f) = rw (e, f) (insert_comm b' a' (sort l))
sort-permᴰ (Permᴰ.trans p q) = sort-permᴰ p ∙ sort-permᴰ q

PidKidInfo-List-set : IsSet (List PidKidInfo)
PidKidInfo-List-set = hlevel

pub sort-perm_eq : (xs ys : List PidKidInfo) → Perm xs ys → sort xs ≡ sort ys
sort-perm_eq xs ys p = ∥∥₁_elim p (PidKidInfo-List-set _ _) sort-permᴰ

sort_of_IsSorted : (l : List PidKidInfo) → IsSorted l → sort l ≡ l
unfolding sort insert
sort_of_IsSorted [] h = refl
sort_of_IsSorted (x ∷ []) h = refl
sort_of_IsSorted (x ∷ y ∷ l) h = rw (sort_of_IsSorted (y ∷ l) h.1) (rw h.0.0)

-- Any arrangement of the triples that `std::sort` may leave is the one that `sort` computes.
pub sort_unique : (r xs : List PidKidInfo) → Perm r xs → IsSorted r → r ≡ sort xs
sort_unique r xs p h = sym (sort_of_IsSorted r h) ∙ sort-perm_eq r xs p

insert_cons :
    (x : PidKidInfo) (l : List PidKidInfo)
    → (y : PidKidInfo) × (r : List PidKidInfo) × (insert x l ≡ y ∷ r)
unfolding insert
insert_cons x [] = (x, [], refl)
insert_cons x (y ∷ l) = elim (Bool-cases (less y x)) [
  | inl b ↦ (y, insert x l, rw b)
  | inr b ↦ (x, y ∷ l, rw b)
]

pub sort_cons :
    (x : PidKidInfo) (l : List PidKidInfo)
    → (y : PidKidInfo) × (r : List PidKidInfo) × (sort (x ∷ l) ≡ y ∷ r)
unfolding sort
sort_cons x l = insert_cons x (sort l)

length-insert : (x : PidKidInfo) (l : List PidKidInfo) → length (insert x l) ≡ suc (length l)
unfolding insert
length-insert x [] = refl
length-insert x (y ∷ l) = ground (arith, length-insert x l)

pub length-sort : (l : List PidKidInfo) → length (sort l) ≡ length l
unfolding sort
length-sort [] = refl
length-sort (x ∷ l) = omega (arith, length-insert x (sort l), length-sort l)
