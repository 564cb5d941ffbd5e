-- ===== src/Invert2/Table.antt =====
-- `InvertTable` of invert_table/invert_table.h, for the structs of its `InvertTable2`. A method
-- returns the new state beside its result; `none` is a fault: a null `FILE *` that is used, an
-- element read or written behind a vector's size, a file of the wrong kind.
use Prim.Native.String.{String, ◌++◌ as str_append}
use learning_cpp.Prelude.{
  ℕ, suc, ◌+◌, ℤ, pos, ◌==ℤ◌, leb, ◌==◌, Bool, true, false, not, ◌&&◌, Option, none, some,
  if◌then◌else◌, List, [], ◌∷◌, ◌++◌, length, take, drop,
}
use learning_cpp.Invert.Disk.{Files, write, open_read}
use learning_cpp.Invert2.Node.{StPidKidInfo2, InvertNode2, IndexNode, PostList, copy, add_square}
use learning_cpp.Invert2.Maps.{assign, find}

pub data File : Type 0 where
  index_file : List IndexNode → File
  invert_file : List InvertNode2 → File

pub record InvertTable2 : Type 0 where
  pub is_cached : Bool
  pub fp : Option String
  pub index_file_name : String
  pub invert_file_name : String
  pub index_map : List (ℤ × IndexNode)
  pub invert_vec : List InvertNode2

-- The constructor.
abbrev pub new_table : Bool → InvertTable2
new_table use_cache = record {
  is_cached = use_cache;
  fp = none;
  index_file_name = "";
  invert_file_name = "";
  index_map = [];
  invert_vec = [];
}

-- `clear()`.
abbrev pub clear : InvertTable2 → InvertTable2
clear t = record t { fp = none; index_map = []; invert_vec = [] }

abbrev pub fresh_node : ℤ → ℕ → IndexNode
fresh_node pid i = record { id = pid; offset = i; count = 0; total_weight = pos 0 }

-- The local variables of the loop of `createInvertTable`, with the vector and the map that it fills.
pub record Builder : Type 0 where
  pub node : IndexNode
  pub map : List (ℤ × IndexNode)
  pub vec : List InvertNode2

abbrev pub second_nodes : List (ℤ × IndexNode) → List IndexNode
second_nodes [] = []
second_nodes ((k, node) ∷ m) = node ∷ second_nodes m

unfoldable pub write_index : InvertTable2 → Files File → Option (Files File)
write_index t d = write d t.index_file_name (File.index_file (second_nodes t.index_map))

unfoldable pub write_invert : InvertTable2 → Files File → Option (Files File)
write_invert t d = write d t.invert_file_name (File.invert_file t.invert_vec)

abbrev pub index_path : String → String
index_path dir = str_append dir "/index.idx"

abbrev pub invert_path : String → String
invert_path dir = str_append dir "/invert.idx"

-- The writes of `create`.
unfoldable pub persist : InvertTable2 → Files File → Bool → Option (Files File)
persist t d is_persistent =
    if is_persistent
    then elim (write_index t d) [ none ↦ none | some d' ↦ write_invert t d' ]
    else if not t.is_cached
    then write_invert t d
    else some d

-- The tail of `create`.
unfoldable pub uncache : InvertTable2 → Files File → InvertTable2
uncache t d =
    if not t.is_cached then record t { fp = open_read d t.invert_file_name; invert_vec = [] } else t

-- `root` is `(int)(sqrt((float)x) * 1000)`.
module _ (root : ℤ → ℤ) where
  -- A node as it is stored in the map.
  abbrev pub rooted : IndexNode → IndexNode
  rooted n = record n { total_weight = root n.total_weight }

  -- One turn of the loop, at position `i`.
  unfoldable pub build_step : ℕ → StPidKidInfo2 → Builder → Builder
  build_step i info b =
      let started = if i == 0 then fresh_node info.pid i else b.node in
      let changed = not (started.id ==ℤ info.pid) in
      let current = if changed then fresh_node info.pid i else started in
      record {
        node = record current {
          count = current.count + 1;
          total_weight = add_square current.total_weight info.weight;
        };
        map = if changed then assign started.id (rooted started) b.map else b.map;
        vec = b.vec ++ copy info ∷ [];
      }

  unfoldable pub build_loop : ℕ → List StPidKidInfo2 → Builder → Builder
  build_loop i [] b = b
  build_loop i (info ∷ infos) b = build_loop (i + 1) infos (build_step i info b)

  -- `createInvertTable`. The loop's node is not initialised in the source; the first turn
  -- overwrites it.
  unfoldable pub create_invert_table : InvertTable2 → List StPidKidInfo2 → InvertTable2
  create_invert_table t [] = t
  create_invert_table t (info ∷ infos) =
      let start : Builder = record {
        node = fresh_node (pos 0) 0;
        map = t.index_map;
        vec = t.invert_vec;
      } in
      let b = build_loop 0 (info ∷ infos) start in
      record t { index_map = assign b.node.id (rooted b.node) b.map; invert_vec = b.vec }

  unfoldable pub create :
      InvertTable2
      → Files File
      → List StPidKidInfo2
      → String
      → Bool
      → Option (InvertTable2 × Files File)
  create t d vec dir is_persistent =
      let named = record t {
        index_file_name = index_path dir;
        invert_file_name = invert_path dir;
      } in
      let built = create_invert_table (clear named) vec in
      elim (persist built d is_persistent) [ none ↦ none | some d' ↦ some (uncache built d', d') ]

-- The loop of `readIndex`.
unfoldable pub read_nodes : List IndexNode → List (ℤ × IndexNode) → List (ℤ × IndexNode)
read_nodes [] m = m
read_nodes (node ∷ nodes) m =
    read_nodes nodes (if not (node.count == 0) then assign node.id node m else m)

-- `readIndex`. `mmap` refuses an empty file, and then the method returns; so does the loop.
unfoldable pub read_index : InvertTable2 → Files File → Option InvertTable2
read_index t d = elim (d.file t.index_file_name) [
  | some (File.index_file nodes) ↦ some (record t { index_map = read_nodes nodes t.index_map })
  | _ ↦ none
]

-- `readInvert`: the nodes are read over the elements of the vector, for which memory is only reserved;
-- those that are more than its size go behind its end.
unfoldable pub read_invert : InvertTable2 → Files File → Option InvertTable2
read_invert t d = elim (d.file t.invert_file_name) [
  | some (File.invert_file nodes) ↦
      if leb (length nodes) (length t.invert_vec)
      then some (record t { invert_vec = nodes ++ drop (length nodes) t.invert_vec })
      else none
  | _ ↦ none
]

abbrev pub exists : Files File → String → Bool
exists d name = elim (d.file name) [ none ↦ false | some _ ↦ true ]

unfoldable pub load : InvertTable2 → Files File → String → String → Option (Bool × InvertTable2)
load t d index_fn invert_fn =
    let named = record (clear t) { index_file_name = index_fn; invert_file_name = invert_fn } in
    if not (exists d index_fn && exists d invert_fn)
    then some (false, t)
    else elim (read_index named d) [
      | none ↦ none
      | some t' ↦
          if not t'.is_cached
          then some (true, record t' { fp = open_read d invert_fn })
          else elim (read_invert t' d) [ none ↦ none | some u ↦ some (true, u) ]
    ]

-- `readInvertPart`.
unfoldable pub read_invert_part : InvertTable2 → Files File → IndexNode → Option PostList
read_invert_part t d node = elim t.fp [
  | none ↦ none
  | some name ↦ elim (d.file name) [
    | some (File.invert_file nodes) ↦ some (
        if leb node.count (length (drop node.offset nodes))
        then PostList.posted node.count (take node.count (drop node.offset nodes))
        else PostList.cut_off node.count)
    | _ ↦ none
  ]
]

-- `&(vec[addr])`.
abbrev pub element : List InvertNode2 → ℕ → ℕ → Option PostList
element vec addr cnt =
    if leb (suc addr) (length vec) then some (PostList.posted cnt (drop addr vec)) else none

-- `&(temp_vec[0])`.
abbrev pub first_of : Option PostList → Option PostList
first_of (some (PostList.posted cnt nodes)) = element nodes 0 cnt
first_of o = o

-- `getPostList(index, temp_vec, start, cnt)`.
unfoldable pub get_post_list : InvertTable2 → Files File → ℤ → Option PostList
get_post_list t d index = elim (find index t.index_map) [
  | none ↦ some PostList.missing
  | some node ↦
      if t.is_cached
      then element t.invert_vec node.offset node.count
      else first_of (read_invert_part t d node)
]

-- `getPostList(index, result_vec)`.
unfoldable pub get_post_vec : InvertTable2 → Files File → ℤ → Option PostList
get_post_vec t d index = elim (find index t.index_map) [
  | none ↦ some PostList.missing
  | some node ↦
      if t.is_cached
      then if leb (node.offset + node.count) (length t.invert_vec)
        then some (PostList.posted node.count (take node.count (drop node.offset t.invert_vec)))
        else none
      else read_invert_part t d node
]
