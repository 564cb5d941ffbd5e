-- ===== src/FileCp/Threads/Started.antt =====
-- The start of the threads of file_cp/mult_thread_cp.c.
use learning_cpp.Prelude.{
  ℕ, zero, suc, ◌+◌, ◌*◌, ◌/◌, ◌%◌, ◌<◌, leb, ◌==◌, ◌||◌, ◌≡◌, refl, ◌∙◌, arith, some, List, [],
  ◌∷◌, All, length, inl, inr, Bool-cases,
}
use native.Mathlib.Omega.{div_any}
use learning_cpp.FileCp.Threads.{Thread, Copy, new_bar, fill_arr, add_rest, start, sum_done}
use learning_cpp.FileCp.Threads.Parts.{Tiles, Tiles-fill_arr, Tiles-add_rest, Part}
use learning_cpp.FileCp.Threads.BarTurns.{IsBar}

-- The threads have the file's parts, and the destination what they have done.
pub record Sound (s : ℕ → ℕ) (size : ℕ) (c : Copy) : Type 0 where
  pub tiles : Tiles 0 size c.threads
  pub parts : All (Part s c.d) c.threads

-- A file that is not empty, and whose size is an `int`, is given to any number of threads but none.
pub start_lem :
    (size n : ℕ) (d : ℕ → ℕ)
    → 0 < size
    → size < 2147483648
    → 0 < n
    → (c : Copy) × (start size n d ≡ some c)
unfolding start
start_lem size zero d a b h = absurd (omega arith)
start_lem size (suc n) d a b h =
    let ts = add_rest (size % suc n) (fill_arr (suc n) (size / suc n) 0) in
    (record { d = d; threads = ts; bar = new_bar size }, ground arith)

none_done : (n len off : ℕ) → sum_done (fill_arr n len off) ≡ 0
unfolding fill_arr
none_done zero len off = refl
none_done (suc n) len off = omega (arith, none_done n len (off + len))

sum_done-add_rest : (m : ℕ) (ts : List Thread) → sum_done (add_rest m ts) ≡ sum_done ts
unfolding add_rest
sum_done-add_rest m [] = refl
sum_done-add_rest m (t ∷ []) = refl
sum_done-add_rest m (t ∷ u ∷ ts) = omega (arith, sum_done-add_rest m (u ∷ ts))

all_parts : (s d : ℕ → ℕ) (n len off : ℕ) → All (Part s d) (fill_arr n len off)
unfolding fill_arr
all_parts s d zero len off = tt
all_parts s d (suc n) len off =
    ((omega arith, λ j low high. absurd (omega arith)), all_parts s d n len (off + len))

all_parts-add_rest :
    (s d : ℕ → ℕ) (m : ℕ) (ts : List Thread) → All (Part s d) ts → All (Part s d) (add_rest m ts)
unfolding add_rest
all_parts-add_rest s d m [] h = tt
all_parts-add_rest s d m (t ∷ []) h = ((omega (arith, h.0.0), h.0.1), tt)
all_parts-add_rest s d m (t ∷ u ∷ ts) h = (h.0, all_parts-add_rest s d m (u ∷ ts) h.1)

pub start-Sound :
    (s : ℕ → ℕ) (size n : ℕ) (d : ℕ → ℕ) (c : Copy)
    → start size n d ≡ some c
    → Sound s size c × (sum_done c.threads ≡ 0)
unfolding start fill_arr
start-Sound s size zero d c e = absurd (cc)
start-Sound s size (suc n) d c e =
    let len = size / suc n in
    let m = size % suc n in
    let first : Thread = record { off = 0; size = len; done = 0 } in
    let rest = fill_arr n len (0 + len) in
    let whole : 0 + suc n * len + m ≡ size = omega (arith, div_any size (suc n)) in
    let made : Copy = record { d = d; threads = add_rest m (first ∷ rest); bar = new_bar size } in
    let same : made ≡ c = ground arith in
    rw (← same) (
      record {
        tiles =
            rw whole at
              (Tiles-add_rest m 0 (0 + suc n * len) first rest (Tiles-fill_arr (suc n) len 0));
        parts = all_parts-add_rest s d m (first ∷ rest) (all_parts s d (suc n) len 0);
      },
      sum_done-add_rest m (first ∷ rest) ∙ none_done (suc n) len 0,
    )

length-fill_arr : (n len off : ℕ) → length (fill_arr n len off) ≡ n
unfolding fill_arr
length-fill_arr zero len off = refl
length-fill_arr (suc n) len off = omega (arith, length-fill_arr n len (off + len))

length-add_rest : (m : ℕ) (ts : List Thread) → length (add_rest m ts) ≡ length ts
unfolding add_rest
length-add_rest m [] = refl
length-add_rest m (t ∷ []) = refl
length-add_rest m (t ∷ u ∷ ts) = omega (arith, length-add_rest m (u ∷ ts))

pub start-IsBar : (size n : ℕ) (d : ℕ → ℕ) (c : Copy) → start size n d ≡ some c → IsBar size n 0 c
unfolding start
start-IsBar size zero d c e = absurd (cc)
start-IsBar size (suc n) d c e = elim (Bool-cases (size == 0 || leb 2147483648 size)) [
  | inl f ↦ absurd (ground arith)
  | inr f ↦
      let ts = add_rest (size % suc n) (fill_arr (suc n) (size / suc n) 0) in
      let made : Copy = record { d = d; threads = ts; bar = new_bar size } in
      let same : made ≡ c = ground arith in
      rw (← same) (record {
        size_is = refl;
        length_is =
            length-add_rest (size % suc n) (fill_arr (suc n) (size / suc n) 0)
            ∙ length-fill_arr (suc n) (size / suc n) 0;
        small = λ less. (refl, refl, omega arith);
      })
]
