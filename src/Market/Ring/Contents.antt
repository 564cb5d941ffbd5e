-- ===== src/Market/Ring/Contents.antt =====
-- What a ring buffer holds: a queue of one item less than the array has.
use learning_cpp.Prelude.{
  ℕ, zero, suc, ◌+◌, ◌-◌, ◌≤◌, ◌<◌, ◌%◌, ◌≡◌, refl, sym, ap, ◌∙◌, arith, false, leb, ◌==◌, some,
  if◌then◌else◌, List, [], ◌∷◌, ◌++◌, append_assoc, append-nil, length, get_elem?, set, take, drop,
  length-append, length-drop, length-take_of_le, inl, inr, ◌⊎◌, Bool-cases,
}
use native.Mathlib.Nat.{mod_self, mod-eq_of_lt}
use learning_cpp.Market.Ring.{Ring, next_write, next_read}

-- The items from one position up to another, around the end of the array.
unfoldable pub segment : List ℕ → ℕ → ℕ → List ℕ
segment b r w = if leb r w then take (w - r) (drop r b) else drop r b ++ take w b

unfoldable pub contents : Ring → List ℕ
contents r = segment r.item_buffer r.read_position r.write_position

pub record IsRing (size : ℕ) (r : Ring) : Type 0 where
  pub length_is : length r.item_buffer ≡ size
  pub read_lt : r.read_position < size
  pub write_lt : r.write_position < size

-- A write behind what is taken.
take-drop-set :
    (b : List ℕ) (r n w x : ℕ)
    → w ≡ r + n
    → w < length b
    → take (suc n) (drop r (set b w x)) ≡ take n (drop r b) ++ x ∷ []
take-drop-set [] r n w x e k = absurd (omega arith)
take-drop-set (y ∷ b) zero zero zero x e k = refl
take-drop-set (y ∷ b) zero zero (suc w) x e k = absurd (omega arith)
take-drop-set (y ∷ b) zero (suc n) zero x e k = absurd (omega arith)
take-drop-set (y ∷ b) zero (suc n) (suc w) x e k =
    ap (◌∷◌ y) (take-drop-set b zero n w x (omega arith) (omega arith))
take-drop-set (y ∷ b) (suc r) n zero x e k = absurd (omega arith)
take-drop-set (y ∷ b) (suc r) n (suc w) x e k = take-drop-set b r n w x (omega arith) (omega arith)

pub length-set : (b : List ℕ) (w x : ℕ) → length (set b w x) ≡ length b
length-set [] w x = refl
length-set (y ∷ b) zero x = refl
length-set (y ∷ b) (suc w) x = ap suc (length-set b w x)

take_all : (n : ℕ) (b : List ℕ) → length b ≤ n → take n b ≡ b
take_all zero [] h = refl
take_all zero (x ∷ b) h = absurd (omega arith)
take_all (suc n) [] h = refl
take_all (suc n) (x ∷ b) h = ap (◌∷◌ x) (take_all n b (omega arith))

drop-set : (b : List ℕ) (r w x : ℕ) → w < r → drop r (set b w x) ≡ drop r b
drop-set [] r w x h = refl
drop-set (y ∷ b) zero w x h = absurd (omega arith)
drop-set (y ∷ b) (suc r) zero x h = refl
drop-set (y ∷ b) (suc r) (suc w) x h = drop-set b r w x (omega arith)

-- The item at a position is the first one behind it.
item_at :
    (b : List ℕ) (r : ℕ)
    → r < length b
    → (x : ℕ) × ((get_elem? b r ≡ some x) × (drop r b ≡ x ∷ drop (suc r) b))
item_at [] r h = absurd (omega arith)
item_at (y ∷ b) zero h = (y, (refl, refl))
item_at (y ∷ b) (suc r) h = item_at b r (omega arith)

pub next_position : (size w : ℕ) → w < size → (w + 1) % size ≡ next_write size w
next_position size w h = elim (Bool-cases (w + 1 == size)) [
  | inl e ↦ let last : w + 1 ≡ size = ground arith in rw (e, last) (mod_self size)
  | inr e ↦ rw e (mod-eq_of_lt (ground arith))
]

segment_ahead : (b : List ℕ) (r w : ℕ) → r ≤ w → segment b r w ≡ take (w - r) (drop r b)
unfolding segment
segment_ahead b r w h = ground arith

-- Nothing lies between a position and itself.
pub segment_same : (b : List ℕ) (r w : ℕ) → r ≡ w → segment b r w ≡ []
segment_same b r w e =
    let none_left : w - r ≡ 0 = omega arith in
    segment_ahead b r w (omega arith) ∙ ap (λ n. take n (drop r b)) none_left

segment_around : (b : List ℕ) (r w : ℕ) → w < r → segment b r w ≡ drop r b ++ take w b
unfolding segment
segment_around b r w h = ground arith

module _ (b : List ℕ) (r w x : ℕ) (r_lt : r < length b) (w_lt : w < length b) where
  ahead : r ≤ w → take (suc w - r) (drop r (set b w x)) ≡ take (w - r) (drop r b) ++ x ∷ []
  ahead h =
      let e : suc w - r ≡ suc (w - r) = omega arith in
      ap (λ n. take n (drop r (set b w x))) e ∙ take-drop-set b r (w - r) w x (omega arith) w_lt

  at_end : r ≤ w → suc w ≡ length b → drop r (set b w x) ≡ take (w - r) (drop r b) ++ x ∷ []
  at_end h e =
      sym (
        take_all (suc w - r) (drop r (set b w x))
          (omega (arith, length-drop r (set b w x), length-set b w x)))
      ∙ ahead h

  segment-set_ahead : r ≤ w → segment (set b w x) r (suc w) ≡ segment b r w ++ x ∷ []
  segment-set_ahead h =
      segment_ahead (set b w x) r (suc w) (omega arith)
      ∙ ahead h
      ∙ ap (λ s. s ++ x ∷ []) (sym (segment_ahead b r w h))

  segment-set_end :
      r ≤ w → suc w ≡ length b → 0 < r → segment (set b w x) r 0 ≡ segment b r w ++ x ∷ []
  segment-set_end h e p =
      segment_around (set b w x) r 0 p
      ∙ append-nil (drop r (set b w x))
      ∙ at_end h e
      ∙ ap (λ s. s ++ x ∷ []) (sym (segment_ahead b r w h))

  segment-set_around : suc w < r → segment (set b w x) r (suc w) ≡ segment b r w ++ x ∷ []
  segment-set_around h =
      segment_around (set b w x) r (suc w) h
      ∙ ap (λ s. s ++ take (suc w) (set b w x)) (drop-set b r w x (omega arith))
      ∙ ap (λ s. drop r b ++ s) (take-drop-set b 0 w w x (omega arith) w_lt)
      ∙ sym (append_assoc (drop r b) (take w b) (x ∷ []))
      ∙ ap (λ s. s ++ x ∷ []) (sym (segment_around b r w (omega arith)))

  -- A write at the write position, which then moves on to a position that is not `r`.
  pub segment-set :
      (next_write (length b) w == r) ≡ false
      → segment (set b w x) r (next_write (length b) w) ≡ segment b r w ++ x ∷ []
  segment-set f = ground (arith, segment-set_ahead, segment-set_end, segment-set_around)

drop_all : (n : ℕ) (b : List ℕ) → length b ≤ n → drop n b ≡ []
drop_all zero [] h = refl
drop_all zero (x ∷ b) h = absurd (omega arith)
drop_all (suc n) [] h = refl
drop_all (suc n) (x ∷ b) h = drop_all n b (omega arith)

module _ (b : List ℕ) (r w x : ℕ) (first : drop r b ≡ x ∷ drop (suc r) b) where
  first_ahead : r < w → segment b r w ≡ x ∷ segment b (suc r) w
  first_ahead h =
      let e : w - r ≡ suc (w - suc r) = omega arith in
      segment_ahead b r w (omega arith)
      ∙ ap (λ n. take n (drop r b)) e
      ∙ ap (take (suc (w - suc r))) first
      ∙ ap (◌∷◌ x) (sym (segment_ahead b (suc r) w h))

  first_around : w < r → segment b r w ≡ x ∷ segment b (suc r) w
  first_around h =
      segment_around b r w h
      ∙ ap (λ s. s ++ take w b) first
      ∙ ap (◌∷◌ x) (sym (segment_around b (suc r) w (omega arith)))

  first_end : w < r → suc r ≡ length b → segment b r w ≡ x ∷ segment b 0 w
  first_end h e =
      let all : w - 0 ≡ w = omega arith in
      segment_around b r w h
      ∙ ap (λ s. s ++ take w b) first
      ∙ ap (λ s. x ∷ (s ++ take w b)) (drop_all (suc r) b (omega arith))
      ∙ ap (◌∷◌ x) (sym (segment_ahead b 0 w (omega arith) ∙ ap (λ n. take n b) all))

  first_lem :
      (r == w) ≡ false
      → r < length b
      → w < length b
      → segment b r w ≡ x ∷ segment b (next_read (length b) r) w
  first_lem f r_lt w_lt = ground (arith, first_ahead, first_around, first_end)

module _ (b : List ℕ) (r w : ℕ) (r_lt : r < length b) (w_lt : w < length b) where
  -- How many items there are.
  pub length-segment :
      (r ≤ w) × (length (segment b r w) + r ≡ w)
      ⊎ (w < r) × (length (segment b r w) + r ≡ w + length b)
  length-segment = elim (Bool-cases (leb r w)) [
    | inl e ↦
        let h : r ≤ w = ground arith in
        inl (
          h,
          (omega (
            arith,
            ap length (segment_ahead b r w h),
            length-take_of_le (w - r) (drop r b),
            length-drop r b,
          )),
        )
    | inr e ↦
        let h : w < r = ground arith in
        inr (
          h,
          (omega (
            arith,
            ap length (segment_around b r w h),
            length-append (drop r b) (take w b),
            length-take_of_le w b,
            length-drop r b,
          )),
        )
  ]

  -- The first of the items, and the others.
  pub segment_first :
      (r == w) ≡ false
      → (x : ℕ) × ((get_elem? b r ≡ some x)
          × (segment b r w ≡ x ∷ segment b (next_read (length b) r) w))
  segment_first f = let (x, (e, d)) = item_at b r r_lt in (x, (e, first_lem b r w x d f r_lt w_lt))
