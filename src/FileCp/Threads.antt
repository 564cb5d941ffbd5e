-- ===== src/FileCp/Threads.antt =====
-- file_cp/mult_thread_cp.c: threads copy the bytes of their parts, one at a time, while another draws
-- the bar of what is done, under any schedule.
pub mod Parts
pub mod Copied
pub mod Display
pub mod BarTurns
pub mod Started
use learning_cpp.Prelude.{
  ℕ, zero, suc, ◌+◌, ◌-◌, ◌/◌, ◌%◌, ltb, leb, ◌==◌, ◌||◌, Option, none, some, if◌then◌else◌, List,
  [], ◌∷◌, get_elem?, set,
}
use learning_cpp.FileCp.{write_byte}

-- `arg_t`, with the thread's `done`. Its number is its place in the list.
pub record Thread : Type 0 where
  pub off : ℕ
  pub size : ℕ
  pub done : ℕ

-- The variables of `display`: `size`, the number `i` of the thread that it looks at next, `sum` and
-- `draw`.
pub record Bar : Type 0 where
  pub size : ℕ
  pub i : ℕ
  pub sum : ℕ
  pub draw : ℕ

-- The destination, the threads that copy, and the one that draws.
pub record Copy : Type 0 where
  pub d : ℕ → ℕ
  pub threads : List Thread
  pub bar : Bar

-- The loop that fills `arr`, for `n` more threads.
unfoldable pub fill_arr : ℕ → ℕ → ℕ → List Thread
fill_arr zero len off = []
fill_arr (suc n) len off = record { off = off; size = len; done = 0 } ∷ fill_arr n len (off + len)

-- `arr[n - 1].size += mod`; with no thread it is not reached.
unfoldable pub add_rest : ℕ → List Thread → List Thread
add_rest mod_n [] = []
add_rest mod_n (t ∷ []) = record t { size = t.size + mod_n } ∷ []
add_rest mod_n (t ∷ u ∷ ts) = t ∷ add_rest mod_n (u ∷ ts)

abbrev pub new_bar : ℕ → Bar
new_bar size = record { size = size; i = 0; sum = 0; draw = 0 }

-- `main` up to the threads, on a file of `st_size` bytes. `none`: an empty file, which `mmap` refuses;
-- the division by zero for no thread; or a file whose size is no `int`, of which this is no model: the
-- offsets, lengths and sums of the others are at most their size. What the destination holds is the
-- parameter `d`.
unfoldable pub start : ℕ → ℕ → (ℕ → ℕ) → Option Copy
start st_size zero d = none
start st_size (suc n) d =
    if st_size == 0 || leb 2147483648 st_size
    then none
    else some (record {
      d = d;
      threads = add_rest (st_size % suc n) (fill_arr (suc n) (st_size / suc n) 0);
      bar = new_bar st_size;
    })

-- What a turn comes to: the thread has ended or is not there, the program is killed, or it goes on.
pub data Outcome : Type 0 where
  blocks faults : Outcome
  goes : Copy → Outcome

-- `*q++ = *p++, done[arg_p->t_no]++`.
abbrev pub copied_byte : (ℕ → ℕ) → ℕ → Thread → Copy → Copy
copied_byte s t arg c = record c {
  d = write_byte (arg.off + arg.done) (s (arg.off + arg.done)) c.d;
  threads = set c.threads t (record arg { done = arg.done + 1 });
}

-- A turn of the loop of `tfn`, in thread `t`.
unfoldable pub copy_turn : (ℕ → ℕ) → ℕ → Copy → Outcome
copy_turn s t c = elim (get_elem? c.threads t) [
  | none ↦ Outcome.blocks
  | some arg ↦
      if ltb arg.done arg.size then Outcome.goes (copied_byte s t arg c) else Outcome.blocks
]

abbrev pub items : ℕ
items = 50

-- What is drawn once all of `done` is added up, or `none` for the division by an interval of zero.
unfoldable pub draw_turn : ℕ → ℕ → ℕ → Option ℕ
draw_turn size sum draw =
    let interval = size / (items - 1) in
    if interval == 0
    then none
    else let j = sum / interval + 1 in some (if ltb draw j then j else draw)

-- `for(i = 0, sum = 0; ...)`, of the next turn of the outer loop.
abbrev pub drawn : Copy → Option ℕ → Outcome
drawn c none = Outcome.faults
drawn c (some draw) =
    Outcome.goes (record c { bar = record { size = c.bar.size; i = 0; sum = 0; draw = draw } })

-- A turn of `display`: it adds the `done` of one more thread, or draws after the last.
unfoldable pub display_turn : Copy → Outcome
display_turn c =
    if leb items c.bar.draw then Outcome.blocks else elim (get_elem? c.threads c.bar.i) [
      | none ↦ drawn c (draw_turn c.bar.size c.bar.sum c.bar.draw)
      | some t ↦
          Outcome.goes
            (record c { bar = record c.bar { i = c.bar.i + 1; sum = c.bar.sum + t.done } })
    ]

-- Whose turn it is.
pub data Turn : Type 0 where
  copy : ℕ → Turn
  display : Turn

unfoldable pub step : (ℕ → ℕ) → Turn → Copy → Outcome
step s (Turn.copy t) c = copy_turn s t c
step s Turn.display c = display_turn c

-- A schedule, of which every turn must be one that can be made.
unfoldable pub run : (ℕ → ℕ) → List Turn → Copy → Outcome
run s [] c = Outcome.goes c
run s (t ∷ ts) c = elim (step s t c) [
  | blocks ↦ Outcome.blocks
  | faults ↦ Outcome.faults
  | goes c' ↦ run s ts c'
]

-- What the threads have copied.
abbrev pub sum_done : List Thread → ℕ
sum_done [] = 0
sum_done (t ∷ ts) = t.done + sum_done ts

-- The turns of the threads that copy, and of the one that draws.
abbrev pub copies : List Turn → ℕ
copies [] = 0
copies (Turn.copy t ∷ ts) = suc (copies ts)
copies (Turn.display ∷ ts) = copies ts

abbrev pub displays : List Turn → ℕ
displays [] = 0
displays (Turn.copy t ∷ ts) = displays ts
displays (Turn.display ∷ ts) = suc (displays ts)
