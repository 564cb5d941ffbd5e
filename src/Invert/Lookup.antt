-- ===== src/Invert/Lookup.antt =====
-- What `getInvertInfo` returns on a table whose map describes the runs of a sorted list.
use learning_cpp.Prelude.{
  ℕ, zero, suc, ◌+◌, ◌≤◌, ◌<◌, ℤ, ◌≡◌, refl, arith, Bool, true, false, none, some, List, [], ◌∷◌,
  map, length, take, drop, select, length-drop, take-map, drop-map, length-take_of_le, take-take,
}
use Prim.Native.String.{String}
use learning_cpp.Invert.Node.{PidKidInfo, InvertNode, copy}
use learning_cpp.Invert.Sort.{sort, sort-IsSorted}
use learning_cpp.Prelude.Runs.{count-select, slice-select, count-le-length}
use learning_cpp.Invert.Groups.{has_pid, count_pid, count_below_pid, ByPid, IsSorted-ByPid, pid_of}
use learning_cpp.Invert.Disk.{Disk, File}
use learning_cpp.Invert.Table.{
  InvertTable, get_invert_vec, get_invert_info, read_invert_part, range, find,
}
use learning_cpp.Invert.Build.{node_from}

-- The products of index `k`, by weight and then by product, or the answer that there are none.
abbrev pub answer_of : List InvertNode → Bool × List InvertNode
answer_of [] = (false, [])
answer_of (n ∷ ns) = (true, n ∷ ns)

abbrev pub postings : ℤ → List PidKidInfo → Bool × List InvertNode
postings k vec = answer_of (map copy (select (has_pid k) (sort vec)))

-- The run of `k` in a vector `v`, where the map describes the sorted list `s`.
abbrev pub run_of : ℤ → List PidKidInfo → List InvertNode → Bool × List InvertNode
run_of k s v = elim (count_pid k s) [
  | zero ↦ (false, [])
  | suc n ↦ (true, take (suc n) (drop (count_below_pid k s) v))
]

module _ (k : ℤ) (s : List PidKidInfo) (v : List InvertNode) (t : InvertTable) (d : Disk) where
  pub get-run_cached :
      find k t.index_map ≡ node_from k 0 s none
      → t.use_cached ≡ true
      → t.invert_vec ≡ v
      → length s ≤ length v
      → get_invert_vec t d k ≡ some (run_of k s v)
  unfolding get_invert_vec get_invert_info
  get-run_cached f c e h =
      ground (arith, count-le-length pid_of k s, length-drop (count_below_pid k s) v)

module _ (t : InvertTable) (d : Disk) (name : String) (v : List InvertNode) where
  read_part :
      (offset cnt : ℕ)
      → t.fp ≡ some name
      → d.file name ≡ some (File.invert_file v)
      → offset + cnt ≤ length v
      → read_invert_part t d offset cnt
        ≡ some (record { found = true; cnt = cnt; start = some (take cnt (drop offset v)) })
  unfolding read_invert_part
  read_part offset cnt e o h = rw (e, o) (ground (arith, length-drop offset v))

  range_of_block :
      (offset cnt : ℕ)
      → offset + cnt ≤ length v
      → range (some (take cnt (drop offset v))) cnt ≡ some (take cnt (drop offset v))
  range_of_block offset cnt h = ground (
    arith,
    length-drop offset v,
    length-take_of_le cnt (drop offset v),
    take-take cnt (drop offset v),
  )

  pub get-run_uncached :
      (k : ℤ) (s : List PidKidInfo)
      → find k t.index_map ≡ node_from k 0 s none
      → t.use_cached ≡ false
      → t.fp ≡ some name
      → d.file name ≡ some (File.invert_file v)
      → length s ≤ length v
      → get_invert_vec t d k ≡ some (run_of k s v)
  unfolding get_invert_vec get_invert_info
  get-run_uncached k s f c e o h = ground (
    arith,
    count-le-length pid_of k s,
    read_part (count_below_pid k s) (count_pid k s) e o,
    range_of_block (count_below_pid k s) (count_pid k s),
  )

answer_of_nodes : (l : List PidKidInfo) → 0 < length l → answer_of (map copy l) ≡ (true, map copy l)
answer_of_nodes [] h = absurd (omega arith)
answer_of_nodes (x ∷ l) h = refl

answer_of_none : (l : List PidKidInfo) → length l ≡ 0 → answer_of (map copy l) ≡ (false, [])
answer_of_none [] h = refl
answer_of_none (x ∷ l) h = absurd (omega arith)

slice-copy :
    (k : ℤ) (s : List PidKidInfo)
    → ByPid s
    → take (count_pid k s) (drop (count_below_pid k s) (map copy s))
      ≡ map copy (select (has_pid k) s)
slice-copy k s h = rw (drop-map, take-map, slice-select pid_of k s h)

pub run-postings :
    (k : ℤ) (vec : List PidKidInfo) → run_of k (sort vec) (map copy (sort vec)) ≡ postings k vec
run-postings k vec =
    let s = sort vec in
    let l = select (has_pid k) s in
    ground (
      arith,
      count-select pid_of k s,
      slice-copy k s (IsSorted-ByPid s (sort-IsSorted vec)),
      answer_of_nodes l,
      answer_of_none l,
    )
