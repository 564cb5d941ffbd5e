-- ===== src/Tests/FileCp.antt =====
-- file_cp/ on a file of a few bytes.
use learning_cpp.Prelude.{
  ℕ, zero, suc, ◌-◌, ◌<◌, ◌≤◌, ◌≡◌, ◌≢◌, ◌⊎◌, refl, arith, Option, none, some, if◌then◌else◌, List,
  [], ◌∷◌,
}
use learning_cpp.FileCp.{write_byte, copy_range}
use learning_cpp.FileCp.Processes.{
  process_count, block_size, mod_of, block, child, children, copy_file,
}
use learning_cpp.FileCp.Processes.Lost.{is_lost, copy_file-is_lost}
use learning_cpp.FileCp.Threads.{
  Thread, Copy, Outcome, Turn, fill_arr, add_rest, start, copy_turn, draw_turn, display_turn, step,
  run, copies, displays,
}
use learning_cpp.FileCp.Threads.BarTurns.{display_turns}
use learning_cpp.FileCp.Threads.Copied.{run-copies}

program : Unit {0}
unfolding write_byte copy_range block child children copy_file fill_arr add_rest start copy_turn
    draw_turn display_turn step run
program = tt

-- Byte `j` of the file.
abbrev file : ℕ → ℕ
file j = suc j

abbrev bytes : ℕ → (ℕ → ℕ) → List ℕ
bytes zero d = []
bytes (suc n) d = d 0 ∷ bytes n (λ j. d (suc j))

abbrev bytes_of : ℕ → Option (ℕ → ℕ) → List ℕ
bytes_of n none = []
bytes_of n (some d) = bytes n d

-- Ten bytes by four processes: the third byte and the last two are lost.
copy_file_ten :
    bytes_of 10 (copy_file file 10 4 (0 ∷ 1 ∷ 2 ∷ 3 ∷ []))
    ≡ 1 ∷ 2 ∷ 0 ∷ 4 ∷ 5 ∷ 6 ∷ 7 ∷ 8 ∷ 0 ∷ 0 ∷ []
unfolding program
copy_file_ten = refl

copy_file_empty : copy_file file 0 5 [] ≡ none
unfolding program
copy_file_empty = refl

-- A file of four gigabytes and two bytes: two bytes are copied; one of two gigabytes has a length below 0.
copy_file_large :
    (bytes_of 4 (copy_file file 4294967298 2 (0 ∷ 1 ∷ [])) ≡ 1 ∷ 2 ∷ 0 ∷ 0 ∷ [])
    × (copy_file file 2147483648 2 (0 ∷ 1 ∷ []) ≡ none)
unfolding program
copy_file_large = (refl, refl)

copy_file-is_lost_example :
    (d : ℕ → ℕ) × (copy_file file 10 4 (3 ∷ 1 ∷ 0 ∷ 2 ∷ []) ≡ some d)
    × ((j : ℕ)
        → d j ≡ (
            if is_lost
              (block_size 10 (process_count 10 4))
              (mod_of 10 (process_count 10 4))
              (process_count 10 4)
              j
            then 0
            else file j))
copy_file-is_lost_example =
    copy_file-is_lost file 10 4 (3 ∷ 1 ∷ 0 ∷ 2 ∷ []) (omega arith) (omega arith) (omega arith) refl
      (omega arith, (omega arith, (omega arith, (omega arith, tt))))

abbrev zeros : ℕ → ℕ
zeros j = 0

abbrev schedule : List Turn
schedule = Turn.copy 1 ∷ Turn.copy 0 ∷ Turn.display ∷ Turn.copy 1 ∷ Turn.copy 1 ∷ Turn.copy 0 ∷ []

abbrev parts : ℕ → ℕ → List Thread
parts a b = record { off = 0; size = 2; done = a } ∷ record { off = 2; size = 3; done = b } ∷ []

abbrev started : Copy
started = record {
  d = zeros;
  threads = parts 0 0;
  bar = record { size = 5; i = 0; sum = 0; draw = 0 };
}

abbrev copied : Copy
copied = record {
  d = write_byte 1 2 (write_byte 4 5 (write_byte 3 4 (write_byte 0 1 (write_byte 2 3 zeros))));
  threads = parts 2 3;
  bar = record { size = 5; i = 1; sum = 1; draw = 0 };
}

start_two : start 5 2 zeros ≡ some started
unfolding program
start_two = refl

run_two : run file schedule started ≡ Outcome.goes copied
unfolding program
run_two = refl

run-copies_example :
    (((copies schedule ≡ 5) × (copied.d 3 ≡ file 3))
      ⊎ ((copies schedule < 5)
          × (t : ℕ) × (c : Copy) × (step file (Turn.copy t) copied ≡ Outcome.goes c)))
    × (((49 ≤ 5) × ((turn : Turn) → step file turn copied ≢ Outcome.faults))
        ⊎ ((5 < 49)
            × (displays schedule ≤ 2)
            × (run file (display_turns (suc (2 - displays schedule))) copied ≡ Outcome.faults)))
run-copies_example =
    run-copies file 5 2 zeros schedule started copied 3 start_two run_two (omega arith)

-- Two threads of a file of 98 bytes, and the bar after one byte: at its second turn it has seen both,
-- at its third it draws the first item.
abbrev bar_of : Outcome → Option (ℕ × ℕ)
bar_of Outcome.blocks = none
bar_of Outcome.faults = none
bar_of (Outcome.goes c) = some (c.bar.i, c.bar.draw)

abbrev bar_after : List Turn → Option Copy → Option (ℕ × ℕ)
bar_after ts none = none
bar_after ts (some c) = bar_of (run file ts c)

bar_large :
    (bar_after (Turn.copy 0 ∷ Turn.display ∷ Turn.display ∷ []) (start 98 2 zeros) ≡ some (2, 0))
    × (bar_after (Turn.copy 0 ∷ Turn.display ∷ Turn.display ∷ Turn.display ∷ []) (start 98 2 zeros)
        ≡ some (0, 1))
unfolding program
bar_large = (refl, refl)

-- No file of no bytes, and none of two gigabytes.
start_none : (start 0 2 zeros ≡ none) × (start 2147483648 2 zeros ≡ none)
unfolding program
start_none = (refl, refl)
