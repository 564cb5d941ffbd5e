-- ===== src/Invert/Answers.antt =====
-- `getInvertInfo` after `create` and after `load`, for every index.
use Prim.Native.String.{String}
use learning_cpp.Prelude.{
  ◌≤◌, ℤ, ◌≡◌, ap, ◌∙◌, inl, inr, arith, Bool, true, false, Bool-cases, none, some, List, [], ◌++◌,
  map, length, length-map, length-append, take-drop-append,
}
use learning_cpp.Invert.Node.{PidKidInfo, InvertNode, copy}
use learning_cpp.Invert.Sort.{sort, length-sort}
use learning_cpp.Prelude.Runs.{count-le-length}
use learning_cpp.Invert.Groups.{count_pid, count_below_pid, pid_of}
use learning_cpp.Invert.Disk.{Disk, File, open_read}
use learning_cpp.Invert.Table.{
  InvertTable, index_path, invert_path, uncache, create, get_invert_vec, find,
}
use learning_cpp.Invert.Build.{node_from}
use learning_cpp.Invert.Lookup.{postings, run_of, get-run_cached, get-run_uncached, run-postings}
use learning_cpp.Invert.Create.{Created, create-Created}

module _ (t : InvertTable) (d : Disk) where
  pub map-uncache : (uncache t d).index_map ≡ t.index_map
  unfolding uncache
  map-uncache = ground arith

  pub cached-uncache : (uncache t d).use_cached ≡ t.use_cached
  unfolding uncache
  cached-uncache = ground arith

  pub vec-uncache : t.use_cached ≡ true → (uncache t d).invert_vec ≡ t.invert_vec
  unfolding uncache
  vec-uncache e = ground arith

  pub fp-uncache : t.use_cached ≡ false → (uncache t d).fp ≡ open_read d t.invert_file_name
  unfolding uncache
  fp-uncache e = rw e

abbrev whole : InvertTable → List PidKidInfo → List InvertNode
whole t vec = t.invert_vec ++ map copy (sort vec)

length-whole : (t : InvertTable) (vec : List PidKidInfo) → length (sort vec) ≤ length (whole t vec)
length-whole t vec =
    omega (arith, length-append t.invert_vec (map copy (sort vec)), length-map copy (sort vec))

open_existing :
    (d : Disk) (name : String) (f : File) → d.file name ≡ some f → open_read d name ≡ some name
open_existing d name f e = rw (e, open_read)

module _ {t : InvertTable} {vec : List PidKidInfo} {dir : String} {p : Bool} {t' : InvertTable}
    {d' : Disk} (c : Created t vec dir p t' d') (k : ℤ) where
  find-Created : find k t'.index_map ≡ node_from k 0 (sort vec) none
  find-Created = rw (c.result, map-uncache) (c.nodes k)

  -- The answers after `create` are read from all that the vector held, be it in the cache or in
  -- the file: what was there before, and the new nodes behind it.
  pub get-Created : get_invert_vec t' d' k ≡ some (run_of k (sort vec) (whole t vec))
  get-Created = elim (Bool-cases c.built.use_cached) [
    | inl on ↦
        get-run_cached k (sort vec) (whole t vec) t' d' find-Created
          (rw (c.result, cached-uncache) on) (rw c.result (vec-uncache c.built d' on ∙ c.vector))
          (length-whole t vec)
    | inr off ↦
        let stored = rw c.vector at (c.stored.nodes_uncached off) in
        get-run_uncached t' d' c.built.invert_file_name (whole t vec) k (sort vec) find-Created
          (rw (c.result, cached-uncache) off)
          (rw c.result
            (fp-uncache c.built d' off ∙ open_existing d' c.built.invert_file_name _ stored))
          stored (length-whole t vec)
  ]

run_of_front :
    (k : ℤ) (s : List PidKidInfo) (old new : List InvertNode)
    → length s ≤ length old
    → run_of k s (old ++ new) ≡ run_of k s old
run_of_front k s old new h = ground (
  arith,
  count-le-length pid_of k s,
  take-drop-append (count_pid k s) (count_below_pid k s) old new,
)

-- After `create` with paths that can be written, on a table whose vector is empty, `getInvertInfo`
-- returns for every index exactly its products, the heavier first, and false if it has none. So it
-- does with and without the cache, and whether the table is persistent or not.
pub get-create :
    (t : InvertTable) (d : Disk) (vec : List PidKidInfo) (dir : String) (p : Bool)
    → d.writable (index_path dir) ≡ true
    → d.writable (invert_path dir) ≡ true
    → t.invert_vec ≡ []
    → (t' : InvertTable) × (d' : Disk) × (create t d vec dir p ≡ some (t', d', sort vec))
      × ((k : ℤ) → get_invert_vec t' d' k ≡ some (postings k vec))
get-create t d vec dir p wi wv e =
    let (t', d', made, c) = create-Created t d vec dir p wi wv in
    (t', d', made, λ k. get-Created c k ∙ rw e (ap some (run-postings k vec)))

-- `create` on a cached table that still holds a vector at least as long as the new triples answers
-- every index from the old vector alone: `clear` leaves the vector, and the new offsets start at 0.
pub get-create_again :
    (t : InvertTable) (d : Disk) (vec : List PidKidInfo) (dir : String) (p : Bool)
    → d.writable (index_path dir) ≡ true
    → d.writable (invert_path dir) ≡ true
    → length vec ≤ length t.invert_vec
    → (t' : InvertTable) × (d' : Disk) × (create t d vec dir p ≡ some (t', d', sort vec))
      × ((k : ℤ) → get_invert_vec t' d' k ≡ some (run_of k (sort vec) t.invert_vec))
get-create_again t d vec dir p wi wv h =
    let (t', d', made, c) = create-Created t d vec dir p wi wv in
    (
      t',
      d',
      made,
      λ k. get-Created c k ∙ ap some (run_of_front k (sort vec) t.invert_vec _ (rw length-sort h)),
    )
