-- ===== src/Invert/Table.antt =====
-- `InvertTable` of invert/invert.hpp. A method returns the new state beside its result; `none` is a
-- fault (a null `FILE *` that is used, a read out of bounds, a file of the wrong kind).
use Prim.Native.String.{String, ◌++◌ as str_append}
use learning_cpp.Prelude.{
  ℕ, ◌+◌, ℤ, pos, ◌==ℤ◌, leb, ◌==◌, Bool, true, false, not, ◌&&◌, Option, none, some, if◌then◌else◌,
  List, [], ◌∷◌, ◌++◌, length, take, drop,
}
use learning_cpp.Invert.Node.{PidKidInfo, InvertNode, IndexNode, copy}
use learning_cpp.Invert.Sort.{sort}
use learning_cpp.Invert.Disk.{Disk, File, write, open_read}

pub record InvertTable : Type 0 where
  pub index_map : List (ℤ × IndexNode)
  pub invert_vec : List InvertNode
  pub use_cached : Bool
  pub fp : Option String
  pub index_file_name : String
  pub invert_file_name : String

-- The constructor.
abbrev pub new_table : Bool → InvertTable
new_table use_cache = record {
  index_map = [];
  invert_vec = [];
  use_cached = use_cache;
  fp = none;
  index_file_name = "";
  invert_file_name = "";
}

-- `mIndexMap[k] = node`.
unfoldable pub assign : ℤ → IndexNode → List (ℤ × IndexNode) → List (ℤ × IndexNode)
assign k node [] = (k, node) ∷ []
assign k node ((j, old) ∷ m) = if j ==ℤ k then (j, node) ∷ m else (j, old) ∷ assign k node m

-- `mIndexMap.find(k)`.
unfoldable pub find : ℤ → List (ℤ × IndexNode) → Option IndexNode
find k [] = none
find k ((j, node) ∷ m) = if j ==ℤ k then some node else find k m

-- `clear()`: the map twice, and not the vector.
abbrev pub clear : InvertTable → InvertTable
clear t = record t { index_map = []; fp = none }

abbrev fresh_node : ℤ → ℕ → IndexNode
fresh_node pid i = record { id = pid; offset = i; count = 0 }

-- The local variables of the loop of `createInvertTable`.
pub record Builder : Type 0 where
  pub node : IndexNode
  pub map : List (ℤ × IndexNode)
  pub vec : List InvertNode

-- One turn of the loop, at position `i`.
unfoldable pub build_step : ℕ → PidKidInfo → Builder → Builder
build_step i info b =
    let started = if i == 0 then fresh_node info.pid i else b.node in
    let changed = not (started.id ==ℤ info.pid) in
    let current = if changed then fresh_node info.pid i else started in
    record {
      node = record current { count = current.count + 1 };
      map = if changed then assign started.id started b.map else b.map;
      vec = b.vec ++ copy info ∷ [];
    }

unfoldable pub build_loop : ℕ → List PidKidInfo → Builder → Builder
build_loop i [] b = b
build_loop i (info ∷ infos) b = build_loop (i + 1) infos (build_step i info b)

-- `createInvertTable`: the vector that the caller passed is sorted in place. The loop's node is not
-- initialised in the source; the first turn overwrites it.
unfoldable pub create_invert_table : InvertTable → List PidKidInfo → InvertTable × List PidKidInfo
create_invert_table t [] = (t, [])
create_invert_table t (info ∷ infos) =
    let sorted = sort (info ∷ infos) in
    let start : Builder = record {
      node = fresh_node (pos 0) 0;
      map = t.index_map;
      vec = t.invert_vec;
    } in
    let b = build_loop 0 sorted start in
    (record t { index_map = assign b.node.id b.node b.map; invert_vec = b.vec }, sorted)

-- The second components, in the order of the map's iterator.
abbrev pub nodes_of : List (ℤ × IndexNode) → List IndexNode
nodes_of [] = []
nodes_of ((k, node) ∷ m) = node ∷ nodes_of m

unfoldable pub write_index : InvertTable → Disk → Option Disk
write_index t d = write d t.index_file_name (File.index_file (nodes_of t.index_map))

unfoldable pub write_invert : InvertTable → Disk → Option Disk
write_invert t d = write d t.invert_file_name (File.invert_file t.invert_vec)

infixl 5 ◌>>=◌
abbrev ◌>>=◌ : {A B : Type 0} → Option A → (A → Option B) → Option B
none >>= f = none
some a >>= f = f a

-- The writes of `create`.
unfoldable pub persist : InvertTable → Disk → Bool → Option Disk
unfolding write_index write_invert
persist t d is_persistent =
    if is_persistent
    then (do d' ← write_index t d; write_invert t d')
    else if not t.use_cached
    then write_invert t d
    else some d

-- The tail of `create`: without the cache the vector is dropped and the file is opened.
unfoldable pub uncache : InvertTable → Disk → InvertTable
uncache t d =
    if not t.use_cached
    then record t { invert_vec = []; fp = open_read d t.invert_file_name }
    else t

abbrev pub index_path : String → String
index_path dir = str_append dir "/Index.dict"

abbrev pub invert_path : String → String
invert_path dir = str_append dir "/Invert.dict"

unfoldable pub create :
    InvertTable
    → Disk
    → List PidKidInfo
    → String
    → Bool
    → Option (InvertTable × Disk × List PidKidInfo)
create t d vec dir is_persistent = do
  let named = record t { index_file_name = index_path dir; invert_file_name = invert_path dir }
  let (built, sorted) = create_invert_table (clear named) vec
  d' ← persist built d is_persistent
  some (uncache built d', d', sorted)

-- The loop of `readIndex`.
unfoldable pub read_nodes : List IndexNode → List (ℤ × IndexNode) → List (ℤ × IndexNode)
read_nodes [] m = m
read_nodes (node ∷ nodes) m =
    read_nodes nodes (if not (node.count == 0) then assign node.id node m else m)

-- `readIndex`. `mmap` refuses a file of length 0, and then the method returns; so does the loop.
unfoldable pub read_index : InvertTable → Disk → Option InvertTable
unfolding read_nodes
read_index t d = elim (d.file t.index_file_name) [
  | some (File.index_file nodes) ↦ some (record t { index_map = read_nodes nodes t.index_map })
  | _ ↦ none
]

-- `readInvert()`: the file's nodes go in front of what the vector holds. `mmap` refuses an empty file.
unfoldable pub read_invert : InvertTable → Disk → Option (Bool × InvertTable)
read_invert t d = elim (d.file t.invert_file_name) [
  | some (File.invert_file []) ↦ some (false, t)
  | some (File.invert_file (n ∷ ns)) ↦
      some (true, record t { invert_vec = (n ∷ ns) ++ t.invert_vec })
  | _ ↦ none
]

abbrev exists : Disk → String → Bool
exists d name = elim (d.file name) [ none ↦ false | some _ ↦ true ]

unfoldable pub load : InvertTable → Disk → String → String → Option (Bool × InvertTable)
load t d index_name invert_name =
    let named = record t { index_file_name = index_name; invert_file_name = invert_name } in
    if not (exists d index_name && exists d invert_name) then some (false, named) else (do
      t' ← read_index named d
      if t'.use_cached
          then read_invert t' d
          else some (true, record t' { fp = open_read d invert_name }))

-- What the pointer variant of `getInvertInfo` leaves in `start` and `cnt`: a pointer is the list of
-- the nodes from it on, or `none` if it is null.
pub record Info : Type 0 where
  pub found : Bool
  pub cnt : ℕ
  pub start : Option (List InvertNode)

-- `readInvert(offset, cnt, start)`: `cnt` nodes into a new block, or a null pointer if the file is
-- too short. The block that `start` pointed to is freed.
unfoldable pub read_invert_part : InvertTable → Disk → ℕ → ℕ → Option Info
read_invert_part t d offset cnt = do
  name ← t.fp
  elim (d.file name) [
    | some (File.invert_file nodes) ↦ some (
        if leb cnt (length (drop offset nodes))
        then record { found = true; cnt = cnt; start = some (take cnt (drop offset nodes)) }
        else record { found = false; cnt = cnt; start = none })
    | _ ↦ none
  ]

-- `getInvertInfo(index, start, cnt)`.
unfoldable pub get_invert_info : InvertTable → Disk → ℤ → Option Info
get_invert_info t d index = elim (find index t.index_map) [
  | none ↦ some (record { found = false; cnt = 0; start = none })
  | some node ↦
      if not t.use_cached
      then read_invert_part t d node.offset node.count
      else if leb (length t.invert_vec) node.offset
      then some (record { found = false; cnt = 0; start = none })
      else some
          (record { found = true; cnt = node.count; start = some (drop node.offset t.invert_vec) })
]

-- The range `_start, _start + cnt`, which must lie within the block.
abbrev pub range : Option (List InvertNode) → ℕ → Option (List InvertNode)
range none cnt = none
range (some block) cnt = if leb cnt (length block) then some (take cnt block) else none

-- `getInvertInfo(index, resultVec)`.
unfoldable pub get_invert_vec : InvertTable → Disk → ℤ → Option (Bool × List InvertNode)
get_invert_vec t d index = do
  info ← get_invert_info t d index
  if not info.found
      then some (false, [])
      else (do nodes ← range info.start info.cnt; some (true, nodes))
