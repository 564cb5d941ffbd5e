-- ===== src/Pools/Simple/Unlink.antt =====
-- LL_REMOVE of zl_threadpool/01_simple_threadPool/threadPool.cpp at any place of a list.
use learning_cpp.Prelude.{
  ℕ, ◌≡◌, ◌≢◌, sym, ◌∙◌, arith, Option, none, some, List, [], ◌∷◌, ◌++◌, All,
}
use learning_cpp.Pools.Simple.{Item, Items, ll_remove}
use learning_cpp.Pools.Simple.Links.{
  Linked, Distinct, IsList, removed_prev, removed_next, removed_list, removed_self,
}

-- The pointer before what follows `xs`.
abbrev last_of : Option ℕ → List ℕ → Option ℕ
last_of p [] = p
last_of p (x ∷ xs) = last_of (some x) xs

-- The pointer to the first.
abbrev head_of : List ℕ → Option ℕ
head_of [] = none
head_of (y ∷ ys) = some y

All-right : (P : ℕ → Type 0) (xs ys : List ℕ) → All P (xs ++ ys) → All P ys
All-right P [] ys h = h
All-right P (x ∷ xs) ys h = All-right P xs ys h.1

All-left : (P : ℕ → Type 0) (xs ys : List ℕ) → All P (xs ++ ys) → All P xs
All-left P [] ys h = tt
All-left P (x ∷ xs) ys h = (h.0, All-left P xs ys h.1)

All-skip : (P : ℕ → Type 0) (i : ℕ) (xs ys : List ℕ) → All P (xs ++ i ∷ ys) → All P (xs ++ ys)
All-skip P i [] ys h = h.1
All-skip P i (x ∷ xs) ys h = (h.0, All-skip P i xs ys h.1)

Distinct-skip : (i : ℕ) (xs ys : List ℕ) → Distinct (xs ++ i ∷ ys) → Distinct (xs ++ ys)
Distinct-skip i [] ys h = h.1
Distinct-skip i (x ∷ xs) ys h = (All-skip (λ y. y ≢ x) i xs ys h.0, Distinct-skip i xs ys h.1)

some_ne : (x : ℕ) (ys : List ℕ) → All (λ y. y ≢ x) ys → All (λ y. some x ≢ some y) ys
some_ne x [] h = tt
some_ne x (y ∷ ys) h = ((λ e. h.0 (ground (arith, e))), some_ne x ys h.1)

-- What stands before the rest of a list of distinct items is not in it.
last_of-apart :
    (p : Option ℕ) (xs rest : List ℕ)
    → All (λ z. p ≢ some z) rest
    → Distinct (xs ++ rest)
    → All (λ z. last_of p xs ≢ some z) rest
last_of-apart p [] rest h d = h
last_of-apart p (x ∷ xs) rest h d =
    last_of-apart (some x) xs rest (some_ne x rest (All-right (λ y. y ≢ x) xs rest d.0)) d.1

head_of-ne : (x : ℕ) (ys : List ℕ) → All (λ y. y ≢ x) ys → head_of ys ≢ some x
head_of-ne x [] h e = cc
head_of-ne x (y ∷ ys) h e = h.0 (ground (arith, e))

last_of-ne :
    (x : ℕ) (p : Option ℕ) (xs : List ℕ) → p ≢ some x → All (λ y. y ≢ x) xs → last_of p xs ≢ some x
last_of-ne x p [] h a = h
last_of-ne x p (w ∷ ws) h a = last_of-ne x (some w) ws (λ e. a.0 (ground (arith, e))) a.1

none_apart : (rest : List ℕ) → All (λ z. ◌≢◌ {A = Option ℕ} none (some z)) rest
none_apart [] = tt
none_apart (z ∷ rest) = ((λ e. cc), none_apart rest)

module _ (m : ℕ → Item) (i : ℕ) (ys : List ℕ) where
  prev_is : (p l : Option ℕ) (xs : List ℕ) → Linked m p l (xs ++ i ∷ ys) → (m i).prev ≡ last_of p xs
  prev_is p l [] h = h.1
  prev_is p l (x ∷ xs) h = prev_is (some x) (m x).next xs h.2

  next-Linked :
      (p l : Option ℕ) (xs : List ℕ) → Linked m p l (xs ++ i ∷ ys) → Linked m (some i) (m i).next ys
  next-Linked p l [] h = h.2
  next-Linked p l (x ∷ xs) h = next-Linked (some x) (m x).next xs h.2

next_is : (m : ℕ → Item) (p l : Option ℕ) (ys : List ℕ) → Linked m p l ys → l ≡ head_of ys
next_is m p l [] h = h
next_is m p l (y ∷ ys) h = h.0

module _ (i : ℕ) (s : Items) (before : (s.item i).prev ≢ some i)
    (after : (s.item i).next ≢ some i) where
  kept_next :
      (j : ℕ) → j ≢ i → (s.item i).prev ≢ some j → ((ll_remove i s).item j).next ≡ (s.item j).next
  kept_next j away h = removed_next i s before after j away ∙ ground arith

  kept_prev :
      (j : ℕ) → j ≢ i → (s.item i).next ≢ some j → ((ll_remove i s).item j).prev ≡ (s.item j).prev
  kept_prev j away h = removed_prev i s before after j away ∙ ground arith

  joined_next :
      (j : ℕ) → j ≢ i → (s.item i).prev ≡ some j → ((ll_remove i s).item j).next ≡ (s.item i).next
  joined_next j away e = removed_next i s before after j away ∙ ground arith

  -- Behind the first item that follows.
  tail-Linked :
      (p l : Option ℕ) (zs : List ℕ)
      → All (λ z. z ≢ i) zs
      → All (λ z. (s.item i).prev ≢ some z) zs
      → All (λ z. (s.item i).next ≢ some z) zs
      → Linked s.item p l zs
      → Linked (ll_remove i s).item p l zs
  tail-Linked p l [] away a b h = h
  tail-Linked p l (z ∷ zs) away a b h = (
    h.0,
    kept_prev z away.0 b.0 ∙ h.1,
    rw (kept_next z away.0 a.0) (tail-Linked (some z) (s.item z).next zs away.1 a.1 b.1 h.2),
  )

  rejoined :
      (p : Option ℕ) (ys : List ℕ)
      → (s.item i).prev ≡ p
      → All (λ z. z ≢ i) ys
      → All (λ z. (s.item i).prev ≢ some z) ys
      → Distinct ys
      → Linked s.item (some i) (s.item i).next ys
      → Linked (ll_remove i s).item p (s.item i).next ys
  rejoined p [] e away a d h = h
  rejoined p (y ∷ zs) e away a d h = (
    h.0,
    removed_prev i s before after y away.0 ∙ ground (arith, h.0),
    rw (kept_next y away.0 a.0)
        (tail-Linked (some y) (s.item y).next zs away.1 a.1 (rw h.0 (some_ne y zs d.0)) h.2),
  )

  abbrev front : List ℕ → Option ℕ → Option ℕ
  front [] l = (s.item i).next
  front (x ∷ xs) l = l

  relinked :
      (p l : Option ℕ) (xs ys : List ℕ)
      → Linked s.item p l (xs ++ i ∷ ys)
      → All (λ z. z ≢ i) xs
      → All (λ z. z ≢ i) ys
      → All (λ z. (s.item i).prev ≢ some z) ys
      → All (λ z. (s.item i).next ≢ some z) xs
      → Distinct (xs ++ i ∷ ys)
      → Linked (ll_remove i s).item p (front xs l) (xs ++ ys)
  relinked p l [] ys h away aways a b d = rejoined p ys h.1 aways a d.1 h.2
  relinked p l (x ∷ []) ys h away aways a b d = (
    h.0,
    kept_prev x away.0 b.0 ∙ h.1,
    rw (joined_next x away.0 h.2.1) (rejoined (some x) ys h.2.1 aways a d.1.1 h.2.2),
  )
  relinked p l (x ∷ w ∷ ws) ys h away aways a b d = (
    h.0,
    kept_prev x away.0 b.0 ∙ h.1,
    rw
        (kept_next x away.0 (λ e.
          last_of-ne x none (w ∷ ws) (λ n. cc) (All-left (λ y. y ≢ x) (w ∷ ws) (i ∷ ys) d.0)
            (sym (prev_is s.item i ys p l (x ∷ w ∷ ws) h) ∙ e)))
        (relinked (some x) (s.item x).next (w ∷ ws) ys h.2 away.1 aways a b.1 d.1),
  )

head_of-apart :
    (i : ℕ) (ys xs : List ℕ) → Distinct (xs ++ i ∷ ys) → All (λ z. head_of ys ≢ some z) xs
head_of-apart i ys [] d = tt
head_of-apart i ys (x ∷ xs) d =
    (head_of-ne x ys (All-right (λ y. y ≢ x) xs (i ∷ ys) d.0).1, head_of-apart i ys xs d.1)

apart_left : (i : ℕ) (ys xs : List ℕ) → Distinct (xs ++ i ∷ ys) → All (λ z. z ≢ i) xs
apart_left i ys [] d = tt
apart_left i ys (x ∷ xs) d =
    ((λ e. (All-right (λ y. y ≢ x) xs (i ∷ ys) d.0).0 (sym e)), apart_left i ys xs d.1)

apart_right : (i : ℕ) (ys xs : List ℕ) → Distinct (xs ++ i ∷ ys) → All (λ z. z ≢ i) ys
apart_right i ys [] d = d.0
apart_right i ys (x ∷ xs) d = apart_right i ys xs d.1

-- `LL_REMOVE` of an item at any place of a list leaves the list without it, in both directions, and
-- clears the item's pointers.
pub ll_remove-IsList :
    (i : ℕ) (s : Items) (xs ys : List ℕ)
    → IsList s (xs ++ i ∷ ys)
    → IsList (ll_remove i s) (xs ++ ys)
      × ((ll_remove i s).item i ≡ record { next = none; prev = none })
ll_remove-IsList i s xs ys (h, d) =
    let prev = prev_is s.item i ys none s.list xs h in
    let next =
      next_is s.item (some i) (s.item i).next ys (next-Linked s.item i ys none s.list xs h) in
    let apart = last_of-apart none xs (i ∷ ys) (none_apart (i ∷ ys)) d in
    let before : (s.item i).prev ≢ some i = rw prev apart.0 in
    let after : (s.item i).next ≢ some i = rw next (head_of-ne i ys (apart_right i ys xs d)) in
    let linked =
      relinked i s before after none s.list xs ys h (apart_left i ys xs d) (apart_right i ys xs d)
        (rw prev apart.1) (rw next (head_of-apart i ys xs d)) d in
    (
      (
        rw (list_is i s before after xs ys h (apart_left i ys xs d)) linked,
        Distinct-skip i xs ys d,
      ),
      removed_self i s,
    )
  where
    list_is :
        (i : ℕ) (s : Items) (before : (s.item i).prev ≢ some i) (after : (s.item i).next ≢ some i)
        (xs ys : List ℕ)
        → Linked s.item none s.list (xs ++ i ∷ ys)
        → All (λ z. z ≢ i) xs
        → (ll_remove i s).list ≡ front i s before after xs s.list
    list_is i s before after [] ys h away = removed_list i s before after ∙ ground (arith, h.0)
    list_is i s before after (x ∷ xs) ys h away =
        removed_list i s before after ∙ ground (arith, h.0, away.0)
