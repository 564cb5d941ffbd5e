-- ===== src/FileCp/Processes.antt =====
-- file_cp/mult_process_cp.c: each of `n` processes copies a block of the file in one call.
pub mod Lost
use learning_cpp.Prelude.{
  ℕ, zero, suc, ◌+◌, ◌-◌, ◌*◌, ◌/◌, ◌%◌, ◌≤◌, ◌<◌, ltb, leb, ◌==◌, ◌≡◌, refl, ap, ◌∙◌, arith, Bool,
  true, false, ◌&&◌, ◌||◌, Option, none, some, if◌then◌else◌, List, [], ◌∷◌, All, inl, inr,
  Bool-cases,
}
use native.Mathlib.Nat.{
  mul-le-mul_right, suc-mul, add-mul, one-mul, two-mul, zero-mul, mul-zero, mod-lt,
}
use native.Mathlib.Omega.{div_any}
use learning_cpp.FileCp.{copy_range}

-- The number of processes: not more than there are bytes.
abbrev pub process_count : ℕ → ℕ → ℕ
process_count len n = if ltb len n then len else n

-- `bs` and `mod`, for the number of processes.
abbrev pub block_size : ℕ → ℕ → ℕ
block_size len n = len / n

abbrev pub mod_of : ℕ → ℕ → ℕ
mod_of len n = len % (len / n)

-- The offset and the length that process `i` of `n` copies, with `bs` and `mod`.
unfoldable pub block : ℕ → ℕ → ℕ → ℕ → ℕ × ℕ
block bs mod_bs n i =
    if i == n - 1 then (i * bs, bs + mod_bs) else if i == 0 then (0, bs) else (i * bs + 1, bs)

-- The copy of process `i`.
unfoldable pub child : (ℕ → ℕ) → ℕ → ℕ → ℕ → (ℕ → ℕ) → ℕ → ℕ
child s len n i d =
    let (off, size) = block (block_size len n) (mod_of len n) n i in copy_range s off size d

-- The processes, in the order in which they copy.
unfoldable pub children : (ℕ → ℕ) → ℕ → ℕ → List ℕ → (ℕ → ℕ) → ℕ → ℕ
children s len n [] d = d
children s len n (i ∷ is) d = children s len n is (child s len n i d)

-- `int len = sbuf.st_size`, as the number that its 32 bits write.
abbrev pub len_of : ℕ → ℕ
len_of st_size = st_size % 4294967296

-- `main` on a file of `st_size` bytes. `none`: `len` is negative, and `ftruncate` fails; or it is 0,
-- which `mmap` refuses, and by which `len / n` would divide. `ftruncate` has filled the destination with zeros.
unfoldable pub copy_file : (ℕ → ℕ) → ℕ → ℕ → List ℕ → Option (ℕ → ℕ)
copy_file s st_size n order =
    let len = len_of st_size in
    let count = process_count len n in
    if leb 2147483648 len
    then none
    else if count == 0
    then none
    else some (children s len count order (λ j. 0))
