-- ===== src/FileCp/Threads/BarTurns.antt =====
-- The turns of `display` in file_cp/mult_thread_cp.c, among those of the threads that copy.
use learning_cpp.Prelude.{
  ℕ, zero, suc, ◌+◌, false, ◌≤◌, ◌<◌, ltb, leb, ◌≡◌, ◌≢◌, refl, arith, Option, none, some,
  Option-cases, inl, inr, Bool-cases, List, [], ◌∷◌, get_elem?, set, length,
}
use learning_cpp.FileCp.Threads.{
  Thread, Copy, Outcome, Turn, copied_byte, copy_turn, items, draw_turn, drawn, display_turn, step,
  run, displays,
}
use learning_cpp.FileCp.Threads.Display.{draw_turn-small, draw_turn-large}

in_range : (ts : List Thread) (i : ℕ) (t : Thread) → get_elem? ts i ≡ some t → i < length ts
in_range [] i t e = absurd (cc)
in_range (u ∷ ts) zero t e = omega arith
in_range (u ∷ ts) (suc i) t e = omega (arith, in_range ts i t e)

out_of_range : (ts : List Thread) (i : ℕ) → length ts ≤ i → get_elem? ts i ≡ none
out_of_range [] i h = refl
out_of_range (u ∷ ts) zero h = absurd (omega arith)
out_of_range (u ∷ ts) (suc i) h = out_of_range ts i (omega arith)

thread_at : (ts : List Thread) (i : ℕ) → i < length ts → (t : Thread) × (get_elem? ts i ≡ some t)
thread_at [] i h = absurd (omega arith)
thread_at (u ∷ ts) zero h = (u, refl)
thread_at (u ∷ ts) (suc i) h = thread_at ts i (omega arith)

length-set : (ts : List Thread) (i : ℕ) (t : Thread) → length (set ts i t) ≡ length ts
length-set [] i t = refl
length-set (u ∷ ts) zero t = refl
length-set (u ∷ ts) (suc i) t = omega (arith, length-set ts i t)

-- So many turns of `display`.
abbrev pub display_turns : ℕ → List Turn
display_turns zero = []
display_turns (suc m) = Turn.display ∷ display_turns m

-- The bar of a file of `size` bytes and `n` threads, after `k` turns of `display`: if the file is
-- small, they have added up the first threads.
pub record IsBar (size n k : ℕ) (c : Copy) : Type 0 where
  pub size_is : c.bar.size ≡ size
  pub length_is : length c.threads ≡ n
  pub small : size < 49 → (c.bar.draw ≡ 0) × (c.bar.i ≡ k) × (k ≤ n)

-- A run that goes on has a first turn that does.
pub run-first :
    (s : ℕ → ℕ) (t : Turn) (ts : List Turn) (c c' : Copy)
    → run s (t ∷ ts) c ≡ Outcome.goes c'
    → (mid : Copy) × (step s t c ≡ Outcome.goes mid) × (run s ts mid ≡ Outcome.goes c')
unfolding run
run-first s t ts c c' e = go (step s t c) refl
  where
    go :
        (o : Outcome)
        → step s t c ≡ o
        → (mid : Copy) × (step s t c ≡ Outcome.goes mid) × (run s ts mid ≡ Outcome.goes c')
    go Outcome.blocks f = absurd (ground arith)
    go Outcome.faults f = absurd (ground arith)
    go (Outcome.goes mid) f = (mid, f, ground arith)

module _ (s : ℕ → ℕ) (size n : ℕ) where
  pub copy-IsBar :
      (t k : ℕ) (c c' : Copy)
      → IsBar size n k c
      → copy_turn s t c ≡ Outcome.goes c'
      → IsBar size n k c'
  unfolding copy_turn
  copy-IsBar t k c c' h e = elim (Option-cases (get_elem? c.threads t)) [
    | inl f ↦ absurd (ground arith)
    | inr (arg, f) ↦ elim (Bool-cases (ltb arg.done arg.size)) [
      | inl g ↦
          let same : copied_byte s t arg c ≡ c' = ground arith in
          rw (← same) (record {
            size_is = h.size_is;
            length_is =
                omega
                  (arith, length-set c.threads t (record arg { done = arg.done + 1 }), h.length_is);
            small = h.small;
          })
      | inr g ↦ absurd (ground arith)
    ]
  ]

  drawn-IsBar :
      (k : ℕ) (c c' : Copy) (o : Option ℕ)
      → IsBar size n k c
      → (size < 49 → o ≡ none)
      → drawn c o ≡ Outcome.goes c'
      → IsBar size n (suc k) c' × ((c'.d ≡ c.d) × (c'.threads ≡ c.threads))
  drawn-IsBar k c c' none h few e = absurd (cc)
  drawn-IsBar k c c' (some draw) h few e =
      let end : Copy = record c {
        bar = record { size = c.bar.size; i = 0; sum = 0; draw = draw };
      } in
      let same : end ≡ c' = cc in
      rw (← same) (
        record {
          size_is = h.size_is;
          length_is = h.length_is;
          small = λ less. let never = few less in absurd (cc);
        },
        (refl, refl),
      )

  pub display-IsBar :
      (k : ℕ) (c c' : Copy)
      → IsBar size n k c
      → display_turn c ≡ Outcome.goes c'
      → IsBar size n (suc k) c' × ((c'.d ≡ c.d) × (c'.threads ≡ c.threads))
  unfolding display_turn
  display-IsBar k c c' h e = elim (Bool-cases (leb items c.bar.draw)) [
    | inl f ↦ absurd (ground arith)
    | inr f ↦ elim (Option-cases (get_elem? c.threads c.bar.i)) [
      | inl g ↦
          drawn-IsBar k c c' (draw_turn c.bar.size c.bar.sum c.bar.draw) h
            (λ less.
              draw_turn-small c.bar.size c.bar.sum c.bar.draw (omega (arith, h.size_is, less)))
            (ground arith)
      | inr (t, g) ↦
          let seen : Copy = record c {
            bar = record c.bar { i = c.bar.i + 1; sum = c.bar.sum + t.done };
          } in
          let same : seen ≡ c' = ground arith in
          let below = in_range c.threads c.bar.i t g in
          rw (← same) (
            record {
              size_is = h.size_is;
              length_is = h.length_is;
              small = λ less.
                  let (a, b, le) = h.small less in
                  (a, omega (arith, b), omega (arith, b, below, h.length_is));
            },
            (refl, refl),
          )
    ]
  ]

  pub run-IsBar :
      (ts : List Turn) (k : ℕ) (c c' : Copy)
      → IsBar size n k c
      → run s ts c ≡ Outcome.goes c'
      → IsBar size n (k + displays ts) c'
  unfolding run step
  run-IsBar [] k c c' h e =
      let same : c ≡ c' = cc in
      rw (← same) (record {
        size_is = h.size_is;
        length_is = h.length_is;
        small = λ less. let (a, b, le) = h.small less in (a, omega (arith, b), omega (arith, le));
      })
  run-IsBar (Turn.copy t ∷ ts) k c c' h e =
      let (mid, f, rest) = run-first s (Turn.copy t) ts c c' e in
      run-IsBar ts k mid c' (copy-IsBar t k c mid h f) rest
  run-IsBar (Turn.display ∷ ts) k c c' h e =
      let (mid, f, rest) = run-first s Turn.display ts c c' e in
      let same : suc k + displays ts ≡ k + suc (displays ts) = omega arith in
      rw same at (run-IsBar ts (suc k) mid c' (display-IsBar k c mid h f).0 rest)

  -- If the file is not small, no turn faults.
  pub step-lives :
      (k : ℕ) (c : Copy) (turn : Turn)
      → 49 ≤ size
      → IsBar size n k c
      → step s turn c ≢ Outcome.faults
  unfolding step copy_turn display_turn
  step-lives k c (Turn.copy t) large h e = ground arith
  step-lives k c Turn.display large h e =
      ground
        (arith, draw_turn-large c.bar.size c.bar.sum c.bar.draw (omega (arith, h.size_is, large)))

  display_goes :
      (c : Copy) (k : ℕ)
      → size < 49
      → IsBar size n k c
      → k < n
      → (c' : Copy) × (display_turn c ≡ Outcome.goes c')
  unfolding display_turn
  display_goes c k small h below =
      let (none_drawn, first, le) = h.small small in
      let (t, g) = thread_at c.threads c.bar.i (omega (arith, h.length_is, first, below)) in
      let room : leb items c.bar.draw ≡ false = ground (arith, none_drawn) in
      (
        record c { bar = record c.bar { i = c.bar.i + 1; sum = c.bar.sum + t.done } },
        rw (room, g) refl,
      )

  pub displays-le : (k : ℕ) (c : Copy) → size < 49 → IsBar size n k c → k ≤ n
  displays-le k c small h = let (a, i_is, le) = h.small small in le

  display-faults : (c : Copy) → size < 49 → IsBar size n n c → display_turn c ≡ Outcome.faults
  unfolding display_turn
  display-faults c small h =
      let (none_drawn, first, le) = h.small small in
      let all : length c.threads ≤ c.bar.i = omega (arith, h.length_is, first) in
      let room : leb items c.bar.draw ≡ false = ground (arith, none_drawn) in
      rw
        (
          room,
          out_of_range c.threads c.bar.i all,
          draw_turn-small c.bar.size c.bar.sum c.bar.draw (omega (arith, h.size_is, small)),
        )
        refl

  -- If it is, the turn of `display` behind those that add up the threads does.
  pub display_turns-fault :
      (m k : ℕ) (c : Copy)
      → size < 49
      → IsBar size n k c
      → k + m ≡ n
      → run s (display_turns (suc m)) c ≡ Outcome.faults
  unfolding run step
  display_turns-fault zero k c small h e =
      let same : k ≡ n = omega (arith, e) in rw (run, display-faults c small (rw same at h)) refl
  display_turns-fault (suc m) k c small h e =
      let (mid, turn) = display_goes c k small h (omega arith) in
      let after = display-IsBar k c mid h turn in
      rw (run, turn) (display_turns-fault m (suc k) mid small after.0 (omega arith))
