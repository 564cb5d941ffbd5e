-- ===== src/Invert2/Answers.antt =====
-- What `getPostList` of invert_table/invert_table.h returns after `create`, for every index.
use Prim.Native.String.{String}
use learning_cpp.Prelude.{
  pos, ℕ, zero, suc, ◌+◌, ◌≤◌, ℤ, ◌≡◌, arith, true, false, Option, none, some, List, [], ◌∷◌, map,
  length, take, drop, select, length-drop, length-map, take-map, drop-map, length-take_of_le,
  take-take,
}
use learning_cpp.Prelude.Runs.{
  count_at, count_below, ByKey, slice-select, count-le-length, count-select,
}
use learning_cpp.Invert.Disk.{Files}
use learning_cpp.Invert2.Node.{StPidKidInfo2, InvertNode2, IndexNode, PostList, copy}
use learning_cpp.Invert2.Maps.{find}
use learning_cpp.Invert2.Table.{InvertTable2, File, get_post_list, get_post_vec, read_invert_part}
use learning_cpp.Invert2.Build.{pid_of, has_pid, node_from, weigh}

-- The nodes of an index, in the order of the triples.
abbrev pub nodes_of : ℤ → List StPidKidInfo2 → List InvertNode2
nodes_of k vec = map copy (select (has_pid k) vec)

abbrev pub posting : List InvertNode2 → PostList
posting [] = PostList.missing
posting (n ∷ ns) = PostList.posted (length (n ∷ ns)) (n ∷ ns)

-- The nodes that a caller reads: `cnt` from `start` on.
abbrev pub window : Option PostList → Option PostList
window (some (PostList.posted cnt nodes)) = some (PostList.posted cnt (take cnt nodes))
window o = o

-- The run of `k` in the nodes of the ordered triples `s`.
abbrev run_of : ℤ → List StPidKidInfo2 → PostList
run_of k s = elim (count_at pid_of k s) [
  | zero ↦ PostList.missing
  | suc n ↦ PostList.posted (suc n) (take (suc n) (drop (count_below pid_of k s) (map copy s)))
]

slice-copy :
    (k : ℤ) (s : List StPidKidInfo2)
    → ByKey pid_of s
    → take (count_at pid_of k s) (drop (count_below pid_of k s) (map copy s)) ≡ nodes_of k s
slice-copy k s h = rw (drop-map, take-map, slice-select pid_of k s h)

posting-map :
    (l : List StPidKidInfo2) (n : ℕ)
    → n ≡ length l
    → posting (map copy l)
      ≡ elim n [ zero ↦ PostList.missing | suc m ↦ PostList.posted (suc m) (map copy l) ]
posting-map [] n h = ground arith
posting-map (x ∷ l) n h = ground (arith, length-map copy l)

run-posting :
    (k : ℤ) (s : List StPidKidInfo2) → ByKey pid_of s → run_of k s ≡ posting (nodes_of k s)
run-posting k s h = ground (
  arith,
  slice-copy k s h,
  count-select pid_of k s,
  posting-map (select (has_pid k) s) (count_at pid_of k s),
)

read_part :
    (t : InvertTable2) (d : Files File) (node : IndexNode) (name : String) (v : List InvertNode2)
    → t.fp ≡ some name
    → d.file name ≡ some (File.invert_file v)
    → node.offset + node.count ≤ length v
    → read_invert_part t d node
      ≡ some (PostList.posted node.count (take node.count (drop node.offset v)))
unfolding read_invert_part
read_part t d node name v e o h = ground (arith, length-drop node.offset v)

-- The run of `k` lies within the nodes.
fits :
    (k : ℤ) (s : List StPidKidInfo2)
    → count_below pid_of k s + count_at pid_of k s ≤ length (map copy s)
fits k s = omega (arith, count-le-length pid_of k s, length-map copy s)

module _ (root : ℤ → ℤ) (k : ℤ) (s : List StPidKidInfo2) (t : InvertTable2) (d : Files File)
    (found : find k t.index_map ≡ node_from root k 0 s none) where
  module _ (on : t.is_cached ≡ true) (e : t.invert_vec ≡ map copy s) where
    vec_cached : get_post_vec t d k ≡ some (run_of k s)
    unfolding get_post_vec
    vec_cached = ground (arith, fits k s)

    list_cached : window (get_post_list t d k) ≡ some (run_of k s)
    unfolding get_post_list
    list_cached = ground (arith, fits k s)

  module _ (off : t.is_cached ≡ false) (name : String) (h : t.fp ≡ some name)
      (on_disk : d.file name ≡ some (File.invert_file (map copy s))) where
    stored_node : IndexNode
    stored_node = record {
      id = k;
      offset = count_below pid_of k s;
      count = count_at pid_of k s;
      total_weight = root (weigh k s (pos 0));
    }

    vec_uncached : get_post_vec t d k ≡ some (run_of k s)
    unfolding get_post_vec stored_node
    vec_uncached = ground (arith, fits k s, read_part t d stored_node name (map copy s) h on_disk)

    list_uncached : window (get_post_list t d k) ≡ some (run_of k s)
    unfolding get_post_list stored_node
    list_uncached =
        let run = drop (count_below pid_of k s) (map copy s) in
        ground (
          arith,
          fits k s,
          read_part t d stored_node name (map copy s) h on_disk,
          length-drop (count_below pid_of k s) (map copy s),
          length-take_of_le (count_at pid_of k s) run,
          take-take (count_at pid_of k s) run,
        )

-- Both variants of `getPostList` give the nodes of `k` in `s`.
abbrev pub AnswersBy : InvertTable2 → Files File → List StPidKidInfo2 → ℤ → Type 0
AnswersBy t d s k =
    (get_post_vec t d k ≡ some (posting (nodes_of k s)))
    × (window (get_post_list t d k) ≡ some (posting (nodes_of k s)))

module _ (root : ℤ → ℤ) (k : ℤ) (s : List StPidKidInfo2) (t : InvertTable2) (d : Files File) where
  pub answers_cached :
      find k t.index_map ≡ node_from root k 0 s none
      → ByKey pid_of s
      → t.is_cached ≡ true
      → t.invert_vec ≡ map copy s
      → AnswersBy t d s k
  answers_cached found h on e =
      rw (← run-posting k s h)
        (vec_cached root k s t d found on e, list_cached root k s t d found on e)

  pub answers_uncached :
      find k t.index_map ≡ node_from root k 0 s none
      → ByKey pid_of s
      → t.is_cached ≡ false
      → (name : String) → t.fp ≡ some name
      → d.file name ≡ some (File.invert_file (map copy s))
      → AnswersBy t d s k
  answers_uncached found h off name e on_disk = rw (← run-posting k s h) (
    vec_uncached root k s t d found off name e on_disk,
    list_uncached root k s t d found off name e on_disk,
  )
