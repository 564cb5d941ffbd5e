-- ===== src/Invert2/ZTable.antt =====
-- `ZInvertTable` of invert_table/z_invert_table.h, for the structs of `InvertTable2`. The set of pairs
-- is a list that is asked for membership only.
use learning_cpp.Prelude.{ℤ, Option, none, some, if◌then◌else◌, List, [], ◌∷◌, ◌++◌, length}
use learning_cpp.Invert.Creator.{has_key}
use learning_cpp.Invert2.Node.{StPidKidInfo2, InvertNode2, PostList, copy}
use learning_cpp.Invert2.Maps.{assign, find}

pub record ZInvertTable : Type 0 where
  pub id2_nodes : List (ℤ × List InvertNode2)
  pub dup_filter : List (ℤ × ℤ)

-- `id2Nodes[pid]`, which is empty where there was none.
abbrev pub nodes_at : ℤ → List (ℤ × List InvertNode2) → List InvertNode2
nodes_at pid m = elim (find pid m) [ none ↦ [] | some nodes ↦ nodes ]

unfoldable pub insert : StPidKidInfo2 → ZInvertTable → ZInvertTable
insert info z = if has_key info.pid info.kid z.dup_filter then z else record {
  id2_nodes = assign info.pid (nodes_at info.pid z.id2_nodes ++ copy info ∷ []) z.id2_nodes;
  dup_filter = (info.pid, info.kid) ∷ z.dup_filter;
}

-- `createInvertTable`.
unfoldable pub create_invert_table : List StPidKidInfo2 → ZInvertTable → ZInvertTable
create_invert_table [] z = z
create_invert_table (info ∷ vec) z = create_invert_table vec (insert info z)

-- `create`: what the table held is cleared.
unfoldable pub create : List StPidKidInfo2 → ZInvertTable → ZInvertTable
create vec z = create_invert_table vec (record { id2_nodes = []; dup_filter = [] })

-- `getPostList`; the address of the first element of an empty vector is a fault.
unfoldable pub get_post_list : ZInvertTable → ℤ → Option PostList
get_post_list z id = elim (find id z.id2_nodes) [
  | none ↦ some PostList.missing
  | some [] ↦ none
  | some (n ∷ nodes) ↦ some (PostList.posted (length (n ∷ nodes)) (n ∷ nodes))
]
