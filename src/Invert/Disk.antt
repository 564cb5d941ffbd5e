-- ===== src/Invert/Disk.antt =====
-- The files that invert/invert.hpp writes and reads, at the level of the C library's calls.
-- A file holds an array of structs, since the code writes and reads whole structs only.
use Prim.Native.String.{String}
use text.Mathlib.Text.{◌==◌ as str_eq}
use text.Mathlib.TextEquality.{eq_iff}
use text.Mathlib.TextPositions.{eq_refl}
use learning_cpp.Prelude.{Bool, Option, none, some, if◌then◌else◌, List, ◌≡◌, ◌≢◌, arith}
use learning_cpp.Invert.Node.{IndexNode, InvertNode}

pub data File : Type 0 where
  index_file : List IndexNode → File
  invert_file : List InvertNode → File

-- The files of a program whose files hold values of `F`. `writable` says where `fopen` in mode "wb"
-- succeeds.
pub record Files (F : Type 0) : Type 0 where
  pub file : String → Option F
  pub writable : String → Bool

abbrev pub Disk : Type 0
Disk = Files File

module _ {F : Type 0} where
  abbrev pub after_write : Files F → String → F → Files F
  after_write d name f = record d { file = λ n. if str_eq n name then some f else d.file n }

  -- Creates or overwrites a file. `none`: `fopen` gave a null pointer, which the code goes on to use.
  abbrev pub write : Files F → String → F → Option (Files F)
  write d name f = if d.writable name then some (after_write d name f) else none

  -- `fopen` in mode "rb": a handle, here the name, or a null pointer.
  abbrev pub open_read : Files F → String → Option String
  open_read d name = elim (d.file name) [ none ↦ none | some _ ↦ some name ]

  pub file-after_write_self :
      (d : Files F) (name : String) (f : F) → (after_write d name f).file name ≡ some f
  file-after_write_self d name f = rw (eq_refl name)

  pub file-after_write_ne :
      (d : Files F) (name other : String) (f : F)
      → other ≢ name
      → (after_write d name f).file other ≡ d.file other
  file-after_write_ne d name other f h = ground (arith, eq_iff other name)
