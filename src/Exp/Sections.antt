-- ===== src/Exp/Sections.antt =====
-- A file of settings in sections, and what a flag in it is.
use learning_cpp.Prelude.{
  ◌≡◌, false, ◌==◌, if◌then◌else◌, Option, none, some, List, [], ◌∷◌, ◌++◌, Bytes, map, equal, All,
}
use learning_cpp.Exp.{ExpNode, CLibrary, Result, get_type, node_as, trim, is_empty}

-- A flag and its value, as they are written.
abbrev pub Entry : Type 0
Entry = Bytes × Bytes

pub record Section : Type 0 where
  pub name : Bytes
  pub entries : List Entry

abbrev pub entry_line : Entry → Bytes
entry_line (flag, value) = flag ++ (61 ∷ value)

abbrev pub lines_of : Section → List Bytes
lines_of s = (91 ∷ (s.name ++ (93 ∷ []))) ∷ map entry_line s.entries

abbrev pub all_lines : List Section → List Bytes
all_lines [] = []
all_lines (s ∷ sections) = lines_of s ++ all_lines sections

-- The first line of the flag that has a value of the flag's type.
unfoldable pub found : CLibrary → Bytes → List Entry → Option ExpNode
found c flag [] = none
found c flag ((f, v) ∷ entries) =
    let rest = found c flag entries in
    if equal f flag then elim (node_as c v (get_type f)) [ none ↦ rest | some n ↦ some n ] else rest

-- The first section of that name.
unfoldable pub section_of : Bytes → List Section → Option (List Entry)
section_of posid [] = none
section_of posid (s ∷ sections) =
    let rest = section_of posid sections in if equal s.name posid then some s.entries else rest

abbrev pub or_exit : Option ExpNode → Result
or_exit none = Result.exits 255
or_exit (some n) = Result.node n

-- A reference to a node that is destroyed if the section has the flag, or the flag in the defaults, or -1.
unfoldable pub answer : CLibrary → List Section → List Entry → Bytes → Bytes → Result
answer c sections defaults posid flag = elim (section_of posid sections) [
  | none ↦ or_exit (found c flag defaults)
  | some entries ↦ elim (found c flag entries) [
    | none ↦ or_exit (found c flag defaults)
    | some n ↦ Result.dangles
  ]
]

-- A line that the reader takes as it is meant: not a comment or a header, the flag without '=', both
-- parts without blanks around them, nothing that is in upper case.
abbrev pub Starts : Bytes → Type 0
Starts [] = Unit
Starts (x ∷ xs) = ((x == 35) ≡ false) × ((x == 91) ≡ false)

pub record IsEntry (c : CLibrary) (e : Entry) : Type 0 where
  pub starts : Starts e.0
  pub no_equals : All (λ x. (x == 61) ≡ false) e.0
  pub trim_flag : trim e.0 ≡ e.0
  pub trim_value : trim e.1 ≡ e.1
  pub lower : map c.to_lower (entry_line e) ≡ entry_line e

pub record IsSection (c : CLibrary) (s : Section) : Type 0 where
  pub trim_name : trim s.name ≡ s.name
  pub not_empty : is_empty s.name ≡ false
  pub lower : map c.to_lower (91 ∷ (s.name ++ (93 ∷ []))) ≡ 91 ∷ (s.name ++ (93 ∷ []))
  pub all_entries : All (IsEntry c) s.entries
