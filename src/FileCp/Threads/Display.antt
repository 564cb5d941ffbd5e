-- ===== src/FileCp/Threads/Display.antt =====
-- The progress bar of file_cp/mult_thread_cp.c, on a file of `size` bytes.
use learning_cpp.Prelude.{
  ℕ, ◌+◌, ◌*◌, ◌/◌, ◌≤◌, ◌<◌, ltb, ◌≡◌, ◌≢◌, arith, none, some, ◌⊎◌, inl, inr, if◌then◌else◌,
  Bool-cases,
}
use native.Mathlib.Nat.{mod-lt, mul-le-mul_left, mul_comm}
use native.Mathlib.Omega.{div_any}
use learning_cpp.FileCp.Threads.{items, draw_turn}

quotient_large : (size interval : ℕ) → 0 < interval → 49 * interval ≤ size → 49 ≤ size / interval
quotient_large size interval h k = elim (Bool-cases (ltb (size / interval) 49)) [
  | inl e ↦
      let few : size / interval ≤ 48 = ground arith in
      absurd (
        omega (
          arith,
          div_any size interval,
          mod-lt size h,
          mul-le-mul_left interval few,
          mul_comm interval 48,
        ))
  | inr e ↦ ground arith
]

-- Once all bytes are copied, the bar is whole and the loop ends; but for a file of less than 49 bytes
-- the interval is zero, and the thread divides by it.
pub draw_turn-whole :
    (size draw : ℕ)
    → ((size < 49) × (draw_turn size size draw ≡ none))
      ⊎ ((drawn : ℕ) × (draw_turn size size draw ≡ some drawn) × (items ≤ drawn))
unfolding draw_turn
draw_turn-whole size draw = elim (Bool-cases (ltb size 49)) [
  | inl e ↦ inl (ground arith, ground arith)
  | inr e ↦
      let large : 0 < size / 49 = ground arith in
      let q = quotient_large size (size / 49) large (omega arith) in
      inr (
        (if ltb draw (size / (size / 49) + 1) then size / (size / 49) + 1 else draw),
        ground (arith, large),
        ground (arith, q),
      )
]

pub draw_turn-small : (size sum draw : ℕ) → size < 49 → draw_turn size sum draw ≡ none
unfolding draw_turn
draw_turn-small size sum draw h = ground arith

pub draw_turn-large : (size sum draw : ℕ) → 49 ≤ size → draw_turn size sum draw ≢ none
unfolding draw_turn
draw_turn-large size sum draw h e = ground arith
