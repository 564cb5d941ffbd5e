-- ===== src/FileCp.antt =====
-- file_cp/: programs that copy a file by several threads or processes, through mappings of the two files.
-- A mapping is a function from positions to bytes; the calls that open and map the files are left out.
pub mod Threads
pub mod Processes
use learning_cpp.Prelude.{ℕ, ◌+◌, ltb, leb, ◌==◌, ◌&&◌, if◌then◌else◌}

-- `d[pos] = byte`.
unfoldable pub write_byte : ℕ → ℕ → (ℕ → ℕ) → ℕ → ℕ
write_byte pos byte d j = if j == pos then byte else d j

-- `memcpy(d + off, s + off, len)`.
unfoldable pub copy_range : (ℕ → ℕ) → ℕ → ℕ → (ℕ → ℕ) → ℕ → ℕ
copy_range s off len d j = if leb off j && ltb j (off + len) then s j else d j
