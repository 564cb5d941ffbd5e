-- ===== src/Pools/Simple/Links.antt =====
-- LL_INSERT and LL_REMOVE of zl_threadpool/01_simple_threadPool/threadPool.cpp on a list of items.
use learning_cpp.Prelude.{
  ℕ, ◌≡◌, ◌≢◌, refl, sym, arith, inl, inr, Option, Option-cases, none, some, if◌then◌else◌, List,
  [], ◌∷◌, All,
}
use learning_cpp.Pools.Simple.{Item, Items, set_next, set_prev, points_to, ll_insert, ll_remove}

-- The items `xs` in their order, from the pointer `l` on, where `p` stands before the first.
abbrev pub Linked : (ℕ → Item) → Option ℕ → Option ℕ → List ℕ → Type 0
Linked m p l [] = l ≡ none
Linked m p l (x ∷ xs) = (l ≡ some x) × ((m x).prev ≡ p) × Linked m (some x) (m x).next xs

abbrev pub Distinct : List ℕ → Type 0
Distinct [] = Unit
Distinct (x ∷ xs) = All (λ y. y ≢ x) xs × Distinct xs

abbrev pub IsList : Items → List ℕ → Type 0
IsList s xs = Linked s.item none s.list xs × Distinct xs

-- What two stores agree on is linked in both.
Linked-same :
    (m n : ℕ → Item) (p l : Option ℕ) (xs : List ℕ)
    → All (λ x. m x ≡ n x) xs
    → Linked m p l xs
    → Linked n p l xs
Linked-same m n p l [] same h = h
Linked-same m n p l (x ∷ xs) same h =
    (h.0, rw (← same.0) h.1, Linked-same m n (some x) (n x).next xs same.1 (rw (← same.0) h.2))

module _ (i : ℕ) (s : Items) where
  inserted_ne : (j : ℕ) → j ≢ i → s.list ≢ some j → (ll_insert i s).item j ≡ s.item j
  unfolding ll_insert set_next set_prev
  inserted_ne j away other = ground arith

  inserted-All :
      (xs : List ℕ)
      → All (λ y. y ≢ i) xs
      → All (λ y. s.list ≢ some y) xs
      → All (λ y. s.item y ≡ (ll_insert i s).item y) xs
  inserted-All [] away other = tt
  inserted-All (x ∷ xs) away other =
      (sym (inserted_ne x away.0 other.0), inserted-All xs away.1 other.1)

  inserted_self : s.list ≢ some i → (ll_insert i s).item i ≡ record { next = s.list; prev = none }
  unfolding ll_insert set_next set_prev
  inserted_self other = ground arith

  inserted_first :
      (x : ℕ)
      → s.list ≡ some x
      → x ≢ i
      → (ll_insert i s).item x ≡ record { next = (s.item x).next; prev = some i }
  unfolding ll_insert set_next set_prev
  inserted_first x e away = ground arith

not_first :
    (x : ℕ) (l : Option ℕ) (xs : List ℕ)
    → l ≡ some x
    → All (λ y. y ≢ x) xs
    → All (λ y. l ≢ some y) xs
not_first x l [] e h = tt
not_first x l (y ∷ xs) e h = ((λ same. h.0 (ground arith)), not_first x l xs e h.1)

-- `LL_INSERT` of an item that is not in the list puts it in front.
pub ll_insert-IsList :
    (i : ℕ) (s : Items) (xs : List ℕ)
    → All (λ x. x ≢ i) xs
    → IsList s xs
    → IsList (ll_insert i s) (i ∷ xs)
unfolding ll_insert
ll_insert-IsList i s [] away h =
    let own = inserted_self i s (λ e. cc (e, h.0)) in ((refl, rw own refl, rw own h.0), (tt, tt))
ll_insert-IsList i s (x ∷ xs) away h =
    let own = inserted_self i s (λ e. away.0 (ground (arith, e, h.0.0))) in
    let first = inserted_first i s x h.0.0 away.0 in
    let rest =
      Linked-same s.item (ll_insert i s).item (some x) (s.item x).next xs
        (inserted-All i s xs away.1 (not_first x s.list xs h.0.0 h.1.0)) h.0.2 in
    ((refl, rw own refl, (rw own h.0.0, rw first refl, rw first rest)), (away, h.1))

module _ (i : ℕ) (s : Items) (before : (s.item i).prev ≢ some i)
    (after : (s.item i).next ≢ some i) where
  -- What `LL_REMOVE` leaves in another item.
  pub removed_prev :
      (j : ℕ)
      → j ≢ i
      → ((ll_remove i s).item j).prev
        ≡ (if points_to (s.item i).next j then (s.item i).prev else (s.item j).prev)
  unfolding ll_remove set_next set_prev
  removed_prev j away = elim (Option-cases (s.item i).prev) [
    | inl e ↦ elim (Option-cases (s.item i).next) [
      | inl f ↦ ground arith
      | inr (y, f) ↦ ground arith
    ]
    | inr (w, e) ↦ elim (Option-cases (s.item i).next) [
      | inl f ↦ ground arith
      | inr (y, f) ↦ ground arith
    ]
  ]

  pub removed_next :
      (j : ℕ)
      → j ≢ i
      → ((ll_remove i s).item j).next
        ≡ (if points_to (s.item i).prev j then (s.item i).next else (s.item j).next)
  unfolding ll_remove set_next set_prev
  removed_next j away = elim (Option-cases (s.item i).prev) [
    | inl e ↦ elim (Option-cases (s.item i).next) [
      | inl f ↦ ground arith
      | inr (y, f) ↦ ground arith
    ]
    | inr (w, e) ↦ elim (Option-cases (s.item i).next) [
      | inl f ↦ ground arith
      | inr (y, f) ↦ ground arith
    ]
  ]

  pub removed_list : (ll_remove i s).list ≡ (if points_to s.list i then (s.item i).next else s.list)
  unfolding ll_remove set_next set_prev
  removed_list = elim (Option-cases (s.item i).prev) [
    | inl e ↦ elim (Option-cases (s.item i).next) [
      | inl f ↦ ground arith
      | inr (y, f) ↦ ground arith
    ]
    | inr (w, e) ↦ elim (Option-cases (s.item i).next) [
      | inl f ↦ ground arith
      | inr (y, f) ↦ ground arith
    ]
  ]

pub removed_self :
    (i : ℕ) (s : Items) → (ll_remove i s).item i ≡ record { next = none; prev = none }
unfolding ll_remove set_next set_prev
removed_self i s = ground arith
