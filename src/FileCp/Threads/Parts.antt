-- ===== src/FileCp/Threads/Parts.antt =====
-- The parts of the threads of file_cp/mult_thread_cp.c, and what a turn does to them.
use learning_cpp.Prelude.{
  ℕ, zero, suc, ◌+◌, ◌*◌, ◌≤◌, ◌<◌, ◌==◌, ◌≡◌, refl, arith, some, List, [], ◌∷◌, All, get_elem?,
  set, inl, inr, Bool-cases,
}
use native.Mathlib.Nat.{suc-mul, zero-mul}
use learning_cpp.FileCp.{write_byte}
use learning_cpp.FileCp.Threads.{Thread, fill_arr, add_rest, sum_done}

-- The parts stand one behind the other from `a` up to `b`.
abbrev pub Tiles : ℕ → ℕ → List Thread → Type 0
Tiles a b [] = a ≡ b
Tiles a b (t ∷ ts) = (t.off ≡ a) × Tiles (a + t.size) b ts

pub Tiles-fill_arr : (n len off : ℕ) → Tiles off (off + n * len) (fill_arr n len off)
unfolding fill_arr
Tiles-fill_arr zero len off = omega (arith, zero-mul len)
Tiles-fill_arr (suc n) len off = (refl, rw (end_is n len off) (Tiles-fill_arr n len (off + len)))
  where
    end_is : (n len off : ℕ) → off + suc n * len ≡ off + len + n * len
    end_is n len off = omega (arith, suc-mul n len)

pub Tiles-add_rest :
    (m a b : ℕ) (t : Thread) (ts : List Thread)
    → Tiles a b (t ∷ ts)
    → Tiles a (b + m) (add_rest m (t ∷ ts))
unfolding add_rest
Tiles-add_rest m a b t [] h = (h.0, omega (arith, h.1))
Tiles-add_rest m a b t (u ∷ ts) h = (h.0, Tiles-add_rest m (a + t.size) b u ts h.1)

-- What a thread has done is in the destination.
abbrev pub Part : (ℕ → ℕ) → (ℕ → ℕ) → Thread → Type 0
Part s d t = (t.done ≤ t.size) × ((j : ℕ) → t.off ≤ j → j < t.off + t.done → d j ≡ s j)

module _ (s : ℕ → ℕ) (pos : ℕ) (d : ℕ → ℕ) where
  write_same : (j : ℕ) → d j ≡ s j → write_byte pos (s pos) d j ≡ s j
  unfolding write_byte
  write_same j h = elim (Bool-cases (j == pos)) [
    | inl e ↦ let same : j ≡ pos = ground arith in rw (e, same) refl
    | inr e ↦ rw e h
  ]

  write_here : write_byte pos (s pos) d pos ≡ s pos
  unfolding write_byte
  write_here = ground arith

  Part-write : (t : Thread) → Part s d t → Part s (write_byte pos (s pos) d) t
  Part-write t h = (h.0, λ j low high. write_same j (h.1 j low high))

  All-write : (ts : List Thread) → All (Part s d) ts → All (Part s (write_byte pos (s pos) d)) ts
  All-write [] h = tt
  All-write (t ∷ ts) h = (Part-write t h.0, All-write ts h.1)

module _ (s : ℕ → ℕ) (d : ℕ → ℕ) where
  -- The byte that a thread writes.
  Part-step :
      (t : Thread)
      → t.done < t.size
      → Part s d t
      → Part s (write_byte (t.off + t.done) (s (t.off + t.done)) d) (record t { done = t.done + 1 })
  Part-step t more h = (omega arith, here)
    where
      here :
          (j : ℕ)
          → t.off ≤ j
          → j < t.off + (t.done + 1)
          → write_byte (t.off + t.done) (s (t.off + t.done)) d j ≡ s j
      here j low high = elim (Bool-cases (j == t.off + t.done)) [
        | inl e ↦
            let same : j ≡ t.off + t.done = ground arith in
            rw same (write_here s (t.off + t.done) d)
        | inr e ↦ write_same s (t.off + t.done) d j (h.1 j low (ground arith))
      ]

  pub All-step :
      (ts : List Thread) (i : ℕ) (t : Thread)
      → get_elem? ts i ≡ some t
      → t.done < t.size
      → All (Part s d) ts
      → All
          (Part s (write_byte (t.off + t.done) (s (t.off + t.done)) d))
          (set ts i (record t { done = t.done + 1 }))
  All-step [] i t e more h = tt
  All-step (u ∷ ts) zero t e more h =
      let same : u ≡ t = ground arith in
      (Part-step t more (rw same at h.0), All-write s (t.off + t.done) d ts h.1)
  All-step (u ∷ ts) (suc i) t e more h =
      (Part-write s (t.off + t.done) d u h.0, All-step ts i t e more h.1)

pub Tiles-set :
    (a b : ℕ) (ts : List Thread) (i : ℕ) (t : Thread)
    → get_elem? ts i ≡ some t
    → Tiles a b ts
    → Tiles a b (set ts i (record t { done = t.done + 1 }))
Tiles-set a b [] i t e h = h
Tiles-set a b (u ∷ ts) zero t e h = let same : u ≡ t = ground arith in rw same at h
Tiles-set a b (u ∷ ts) (suc i) t e h = (h.0, Tiles-set (a + u.size) b ts i t e h.1)

pub sum_done-set :
    (ts : List Thread) (i : ℕ) (t : Thread)
    → get_elem? ts i ≡ some t
    → sum_done (set ts i (record t { done = t.done + 1 })) ≡ suc (sum_done ts)
sum_done-set [] i t e = cc
sum_done-set (u ∷ ts) zero t e = ground arith
sum_done-set (u ∷ ts) (suc i) t e = omega (arith, sum_done-set ts i t e)
