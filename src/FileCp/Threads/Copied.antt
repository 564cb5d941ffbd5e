-- ===== src/FileCp/Threads/Copied.antt =====
-- The threads of file_cp/mult_thread_cp.c copy the whole file.
use learning_cpp.Prelude.{
  ℕ, suc, ◌+◌, ◌≤◌, ◌<◌, ltb, ◌==◌, ◌-◌, ◌≡◌, ◌≢◌, refl, ap, arith, true, Option-cases, some, ◌⊎◌,
  List, [], ◌∷◌, All, get_elem?, inl, inr, Bool-cases,
}
use learning_cpp.FileCp.Threads.{
  Thread, Copy, Outcome, Turn, copied_byte, start, copy_turn, step, run, sum_done, copies, displays,
}
use learning_cpp.FileCp.Threads.Started.{Sound, start-Sound, start-IsBar}
use learning_cpp.FileCp.Threads.BarTurns.{
  display_turns, IsBar, run-first, copy-IsBar, display-IsBar, run-IsBar, step-lives, displays-le,
  display_turns-fault,
}
use learning_cpp.FileCp.Threads.Parts.{Tiles, Part, All-step, Tiles-set, sum_done-set}

module _ (s : ℕ → ℕ) (size n : ℕ) where
  -- What a turn of a copying thread does to a sound state.
  copy-Sound :
      (t : ℕ) (c c' : Copy)
      → Sound s size c
      → copy_turn s t c ≡ Outcome.goes c'
      → Sound s size c' × (sum_done c'.threads ≡ suc (sum_done c.threads))
  unfolding copy_turn
  copy-Sound t c c' h e = elim (Option-cases (get_elem? c.threads t)) [
    | inl f ↦ absurd (ground arith)
    | inr (arg, f) ↦ elim (Bool-cases (ltb arg.done arg.size)) [
      | inl g ↦
          let more : arg.done < arg.size = ground arith in
          let same : copied_byte s t arg c ≡ c' = ground arith in
          rw (← same) (
            record {
              tiles = Tiles-set 0 size c.threads t arg f h.tiles;
              parts = All-step s c.d c.threads t arg f more h.parts;
            },
            sum_done-set c.threads t arg f,
          )
      | inr g ↦ absurd (ground arith)
    ]
  ]

  run-Sound :
      (ts : List Turn) (k : ℕ) (c c' : Copy)
      → Sound s size c
      → IsBar size n k c
      → run s ts c ≡ Outcome.goes c'
      → Sound s size c' × (sum_done c'.threads ≡ sum_done c.threads + copies ts)
  unfolding run step
  run-Sound [] k c c' h bar e = let same : c ≡ c' = cc in rw (← same) (h, omega arith)
  run-Sound (Turn.copy t ∷ ts) k c c' h bar e =
      let (mid, f, rest) = run-first s (Turn.copy t) ts c c' e in
      let (sound, one) = copy-Sound t c mid h f in
      let (end, more) = run-Sound ts k mid c' sound (copy-IsBar s size n t k c mid bar f) rest in
      (end, omega (arith, one, more))
  run-Sound (Turn.display ∷ ts) k c c' h bar e =
      let (mid, f, rest) = run-first s Turn.display ts c c' e in
      let (after, same) = display-IsBar s size n k c mid bar f in
      let sound : Sound s size mid = record {
        tiles = rw (← same.1) at h.tiles;
        parts = rw (← same.0, ← same.1) at h.parts;
      } in
      let (end, more) = run-Sound ts (suc k) mid c' sound after rest in
      (end, omega (arith, more, ap sum_done same.1))

module _ (s d : ℕ → ℕ) where
  done-le : (a b : ℕ) (ts : List Thread) → Tiles a b ts → All (Part s d) ts → a + sum_done ts ≤ b
  done-le a b [] h k = omega arith
  done-le a b (t ∷ ts) h k = omega (arith, done-le (a + t.size) b ts h.1 k.1, k.0.0)

  all_done :
      (a b : ℕ) (ts : List Thread)
      → Tiles a b ts
      → All (Part s d) ts
      → a + sum_done ts ≡ b
      → (j : ℕ) → a ≤ j
      → j < b
      → d j ≡ s j
  all_done a b [] h k e j low high = absurd (omega arith)
  all_done a b (t ∷ ts) h k e j low high =
      let rest = done-le (a + t.size) b ts h.1 k.1 in
      elim (Bool-cases (ltb j (a + t.size))) [
        | inl f ↦ k.0.1 j (omega (arith, h.0)) (ground (arith, rest, h.0, k.0.0))
        | inr f ↦
            all_done (a + t.size) b ts h.1 k.1 (omega (arith, rest, k.0.0)) j (ground arith) high
      ]

  unfinished :
      (a b : ℕ) (ts : List Thread)
      → Tiles a b ts
      → All (Part s d) ts
      → a + sum_done ts < b
      → (i : ℕ) × (t : Thread) × (get_elem? ts i ≡ some t) × (t.done < t.size)
  unfinished a b [] h k e = absurd (omega arith)
  unfinished a b (t ∷ ts) h k e = elim (Bool-cases (ltb t.done t.size)) [
    | inl f ↦ (0, t, refl, ground arith)
    | inr f ↦
        let (i, u, g, m) = unfinished (a + t.size) b ts h.1 k.1 (ground (arith, k.0.0)) in
        (suc i, u, g, m)
  ]

moved :
    (s : ℕ → ℕ) (i : ℕ) (c : Copy) (t : Thread)
    → get_elem? c.threads i ≡ some t
    → t.done < t.size
    → (c' : Copy) × (step s (Turn.copy i) c ≡ Outcome.goes c')
unfolding step copy_turn
moved s i c t g m =
    let more : ltb t.done t.size ≡ true = ground arith in
    (copied_byte s i t c, rw (copy_turn, g, more) refl)

-- What the copying threads have reached: the whole file, or a turn that one of them can make.
copied :
    (s : ℕ → ℕ) (size n : ℕ) (d : ℕ → ℕ) (ts : List Turn) (c c' : Copy) (j : ℕ)
    → start size n d ≡ some c
    → run s ts c ≡ Outcome.goes c'
    → j < size
    → ((copies ts ≡ size) × (c'.d j ≡ s j))
      ⊎ ((copies ts < size) × (t : ℕ) × (c'' : Copy) × (step s (Turn.copy t) c' ≡ Outcome.goes c''))
copied s size n d ts c c' j e f below =
    let (h, none_yet) = start-Sound s size n d c e in
    let (k, count) = run-Sound s size n ts 0 c c' h (start-IsBar size n d c e) f in
    let le = done-le s c'.d 0 size c'.threads k.tiles k.parts in
    elim (Bool-cases (copies ts == size)) [
      | inl all ↦ inl (
        ground arith,
        all_done s c'.d 0 size c'.threads k.tiles k.parts (ground (arith, none_yet, count)) j
            (omega arith) below,
      )
      | inr more ↦
          let less : copies ts < size = ground (arith, none_yet, count, le) in
          let (i, t, g, m) =
            unfinished s c'.d 0 size c'.threads k.tiles k.parts
              (omega (arith, none_yet, count, less)) in
          let (c'', turn) = moved s i c' t g m in inr (less, i, c'', turn)
    ]

-- The program, once it has started on a file of `size` bytes with `n` threads, under any schedule whose
-- turns can all be made. The copying threads make
-- at most `size` turns; if they make so many, the destination is the file, and if less, one of them can
-- make another. If the file has 49 bytes or more, no turn faults. If it is smaller, `display` makes at
-- most `n` turns, and its next turn behind these kills the program, however much is copied.
pub run-copies :
    (s : ℕ → ℕ) (size n : ℕ) (d : ℕ → ℕ) (ts : List Turn) (c c' : Copy) (j : ℕ)
    → start size n d ≡ some c
    → run s ts c ≡ Outcome.goes c'
    → j < size
    → (((copies ts ≡ size) × (c'.d j ≡ s j))
        ⊎ ((copies ts < size)
            × (t : ℕ) × (c'' : Copy) × (step s (Turn.copy t) c' ≡ Outcome.goes c'')))
      × (((49 ≤ size) × ((turn : Turn) → step s turn c' ≢ Outcome.faults))
          ⊎ ((size < 49)
              × (displays ts ≤ n)
              × (run s (display_turns (suc (n - displays ts))) c' ≡ Outcome.faults)))
run-copies s size n d ts c c' j e f below =
    let counted : 0 + displays ts ≡ displays ts = omega arith in
    let bar = rw counted at (run-IsBar s size n ts 0 c c' (start-IsBar size n d c e) f) in
    (
      copied s size n d ts c c' j e f below,
      elim (Bool-cases (ltb size 49)) [
        | inl small ↦
            let few = displays-le s size n (displays ts) c' (ground arith) bar in
            inr (
              ground arith,
              few,
              display_turns-fault s size n (n - displays ts) (displays ts) c' (ground arith) bar
                  (omega (arith, few)),
            )
        | inr large ↦
            inl (ground arith, λ turn. step-lives s size n (displays ts) c' turn (ground arith) bar)
      ],
    )
