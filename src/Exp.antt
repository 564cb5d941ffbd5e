-- ===== src/Exp.antt =====
-- exp_小流量控制/exp.h and exp.cpp: the settings of flags by position, with a default.
pub mod Getters
pub mod Typed
pub mod Trim
pub mod Sections
pub mod Maps
pub mod Lines
pub mod Loaded
use learning_cpp.Prelude.{
  ℕ, ℤ, Bool, true, false, ◌&&◌, ◌||◌, ◌==◌, Option, none, some, if◌then◌else◌, List, [], ◌∷◌,
  Bytes, codes, equal, map,
}

-- `isBalnk`: blank, tab, newline, carriage return, NUL and vertical tab.
unfoldable pub is_balnk : ℕ → Bool
is_balnk c = (c == 32) || ((c == 9) || ((c == 10) || ((c == 13) || ((c == 0) || (c == 11)))))

-- The loop over `start`, which stops at `end`.
unfoldable pub skip_front : Bytes → Bytes
skip_front [] = []
skip_front (c ∷ []) = c ∷ []
skip_front (c ∷ d ∷ cs) = let rest = skip_front (d ∷ cs) in if is_balnk c then rest else c ∷ d ∷ cs

-- Whether there are only blanks.
abbrev pub all_balnk : Bytes → Bool
all_balnk [] = true
all_balnk (c ∷ cs) = is_balnk c && all_balnk cs

abbrev pub drop_back : Bytes → Bytes
drop_back [] = []
drop_back (c ∷ cs) = let rest = drop_back cs in if all_balnk (c ∷ cs) then [] else c ∷ rest

-- The loop over `end`, which stops at `start`.
unfoldable pub skip_back : Bytes → Bytes
skip_back [] = []
skip_back (c ∷ cs) = c ∷ drop_back cs

-- A text of one byte is taken for an empty one.
abbrev pub or_empty : Bytes → Bytes
or_empty (c ∷ d ∷ cs) = c ∷ d ∷ cs
or_empty cs = []

unfoldable pub trim : Bytes → Bytes
trim str = or_empty (skip_back (skip_front str))

pub data FlagType : Type 0 where
  none_type bool_type int_type float_type string_type : FlagType

-- `FlagValue`. The pointer of a text is into a string that `load` has destroyed; the number of a
-- `float` is what the parameter for `atof` gives.
pub data FlagValue : Type 0 where
  bl : Bool → FlagValue
  it : ℤ → FlagValue
  ft : ℕ → FlagValue
  dangling : FlagValue

pub record ExpNode : Type 0 where
  pub flagtype : FlagType
  pub flagvalue : FlagValue

abbrev pub Flags : Type 0
Flags = List (Bytes × ExpNode)

abbrev starts_with : Bytes → Bytes → Bool
starts_with [] cs = true
starts_with (x ∷ xs) [] = false
starts_with (x ∷ xs) (c ∷ cs) = x == c && starts_with xs cs

-- `flag.find(word) != string::npos`.
unfoldable pub contains : Bytes → Bytes → Bool
contains word [] = starts_with word []
contains word (c ∷ cs) = starts_with word (c ∷ cs) || contains word cs

unfoldable pub get_type : Bytes → FlagType
get_type flag =
    if contains (codes "enable") flag
    then FlagType.bool_type
    else if contains (codes "int") flag
    then FlagType.int_type
    else if contains (codes "float") flag
    then FlagType.float_type
    else if contains (codes "string") flag
    then FlagType.string_type
    else FlagType.none_type

-- `map::find`.
unfoldable pub lookup {ℓ} : {A : Type ℓ} → Bytes → List (Bytes × A) → Option A
lookup k [] = none
lookup k ((key, a) ∷ m) = let rest = lookup k m in if equal key k then some a else rest

-- `map::insert` keeps the value that a key has.
unfoldable pub insert_new {ℓ} : {A : Type ℓ} → Bytes → A → List (Bytes × A) → List (Bytes × A)
insert_new k a m = elim (lookup k m) [ none ↦ (k, a) ∷ m | some b ↦ m ]

-- What the C library gives: `tolower`, `atoi` and `atof`.
pub record CLibrary : Type 0 where
  pub to_lower : ℕ → ℕ
  pub atoi : Bytes → ℤ
  pub atof : Bytes → ℕ

-- The members, and the variables of `load`.
pub record Exp : Type 0 where
  pub m_conf : List (Bytes × Flags)
  pub m_default : Flags
  pub posid : Bytes
  pub flag2value : Flags

unfoldable pub bool_node : Bytes → Option ExpNode
bool_node value =
    if equal value (codes "true")
    then some (record { flagtype = FlagType.bool_type; flagvalue = FlagValue.bl true })
    else if equal value (codes "false")
    then some (record { flagtype = FlagType.bool_type; flagvalue = FlagValue.bl false })
    else none

-- The node of a line, or `none` if the line is skipped.
abbrev pub node_as : CLibrary → Bytes → FlagType → Option ExpNode
node_as c value FlagType.bool_type = bool_node value
node_as c value FlagType.int_type =
    some (record { flagtype = FlagType.int_type; flagvalue = FlagValue.it (c.atoi value) })
node_as c value FlagType.float_type =
    some (record { flagtype = FlagType.float_type; flagvalue = FlagValue.ft (c.atof value) })
node_as c value FlagType.string_type =
    some (record { flagtype = FlagType.string_type; flagvalue = FlagValue.dangling })
node_as c value FlagType.none_type = none

-- A line "flag=value", cut at the first '='.
unfoldable pub cut : Bytes → Option (Bytes × Bytes)
cut [] = none
cut (c ∷ cs) =
    let rest = cut cs in
    if c == 61 then some ([], cs) else elim rest [ none ↦ none | some (a, b) ↦ some (c ∷ a, b) ]

abbrev pub add_flag : Bytes → Option ExpNode → Exp → Exp
add_flag flag none e = e
add_flag flag (some node) e = record e { flag2value = insert_new flag node e.flag2value }

unfoldable pub flag_line : CLibrary → Bytes → Exp → Exp
flag_line c tmp e = elim (cut tmp) [
  | none ↦ e
  | some (a, b) ↦ add_flag (trim a) (node_as c (trim b) (get_type (trim a))) e
]

abbrev pub is_empty : Bytes → Bool
is_empty [] = true
is_empty (c ∷ cs) = false

-- What is kept of the section that ends.
unfoldable pub end_section : Exp → Exp
end_section e =
    if equal e.posid (codes "default")
    then record e { m_default = e.flag2value; flag2value = []; posid = [] }
    else if is_empty e.posid
    then e
    else record e { m_conf = insert_new e.posid e.flag2value e.m_conf; flag2value = [] }

-- The bytes between the brackets of a line that has both.
abbrev pub between : Bytes → Option Bytes
between [] = none
between (c ∷ []) = if c == 93 then some [] else none
between (c ∷ d ∷ cs) = elim (between (d ∷ cs)) [ none ↦ none | some r ↦ some (c ∷ r) ]

-- A line "[posid]": after the section "default" the name is not read.
unfoldable pub header_line : Bytes → Exp → Exp
header_line name e =
    if equal e.posid (codes "default")
    then end_section e
    else record (end_section e) { posid = trim name }

unfoldable pub load_line : CLibrary → Bytes → Exp → Exp
load_line c [] e = e
load_line c (x ∷ xs) e =
    if x == 35
    then e
    else if x == 91
    then elim (between xs) [ none ↦ flag_line c (x ∷ xs) e | some name ↦ header_line name e ]
    else flag_line c (x ∷ xs) e

unfoldable pub load_lines : CLibrary → List Bytes → Exp → Exp
load_lines c [] e = e
load_lines c (tmp ∷ lines) e = load_lines c lines (load_line c (map c.to_lower tmp) e)

-- `load` on the lines of the file; `none` is a file that is not there.
unfoldable pub load : CLibrary → Option (List Bytes) → Exp → Exp
load c none e = e
load c (some lines) e = end_section (load_lines c lines (record e { posid = []; flag2value = [] }))

-- A node, the status of `exit`, of which the system keeps a byte: 255 is -1 and 254 is -2, or a
-- reference to a node that is destroyed.
pub data Result : Type 0 where
  exits : ℕ → Result
  dangles : Result
  node : ExpNode → Result

-- `getDefault`.
unfoldable pub get_default : Bytes → Exp → Result
get_default flag e = elim (lookup flag e.m_default) [
  | none ↦ Result.exits 255
  | some n ↦ Result.node n
]

-- `getExpNode`, which finds the node of a position in a local copy of its map.
unfoldable pub get_exp_node : Bytes → Bytes → Exp → Result
get_exp_node posid flag e = elim (lookup posid e.m_conf) [
  | none ↦ get_default flag e
  | some flags ↦ elim (lookup flag flags) [ none ↦ get_default flag e | some n ↦ Result.dangles ]
]

abbrev code_of : FlagType → ℕ
code_of FlagType.none_type = 4
code_of FlagType.bool_type = 0
code_of FlagType.int_type = 1
code_of FlagType.float_type = 2
code_of FlagType.string_type = 3

unfoldable pub same_type : FlagType → FlagType → Bool
same_type a b = code_of a == code_of b

abbrev pub checked : FlagType → FlagType → Result → Result
checked named wanted (Result.exits s) = Result.exits s
checked named wanted Result.dangles = Result.dangles
checked named wanted (Result.node n) =
    if same_type n.flagtype named && same_type named wanted then Result.node n else Result.exits 254

-- `judgeExpNode`, which copies the node through the reference.
unfoldable pub judge_exp_node : CLibrary → Bytes → Bytes → FlagType → Exp → Result
judge_exp_node c posid flag wanted e =
    let lower = map c.to_lower flag in
    checked (get_type lower) wanted (get_exp_node (map c.to_lower posid) lower e)

-- The constructor `Exp`, with the file of its name.
unfoldable pub new_exp : CLibrary → Option (List Bytes) → Exp
new_exp c file = load c file (record { m_conf = []; m_default = []; posid = []; flag2value = [] })
