-- ===== src/Invert2/Create.antt =====
-- `getPostList` of invert_table/invert_table.h after `create`.
use Prim.Native.String.{String}
use learning_cpp.Prelude.{
  ℤ, ◌≡◌, ◌∙◌, inl, inr, arith, Bool, true, false, Bool-cases, none, some, List,
}
use learning_cpp.Prelude.Runs.{ByKey}
use learning_cpp.Invert.Disk.{Files}
use learning_cpp.Invert2.Node.{StPidKidInfo2}
use learning_cpp.Invert2.Maps.{find}
use learning_cpp.Invert2.Table.{InvertTable2, File, index_path, invert_path, uncache, create}
use learning_cpp.Invert2.Build.{pid_of, node_from}
use learning_cpp.Invert2.Persist.{Created, create-Created}
use learning_cpp.Invert2.Answers.{AnswersBy, answers_cached, answers_uncached}

module _ (t : InvertTable2) (d : Files File) where
  map-uncache : (uncache t d).index_map ≡ t.index_map
  unfolding uncache
  map-uncache = ground arith

  cached-uncache : (uncache t d).is_cached ≡ t.is_cached
  unfolding uncache
  cached-uncache = ground arith

  vec-uncache : t.is_cached ≡ true → (uncache t d).invert_vec ≡ t.invert_vec
  unfolding uncache
  vec-uncache e = ground arith

  fp-uncache :
      (f : File)
      → t.is_cached ≡ false
      → d.file t.invert_file_name ≡ some f
      → (uncache t d).fp ≡ some t.invert_file_name
  unfolding uncache
  fp-uncache f e h = ground arith

module _ (root : ℤ → ℤ) {cached : Bool} {vec : List StPidKidInfo2} {dir : String} {p : Bool}
    {t' : InvertTable2} {d' : Files File} (c : Created root cached vec dir p t' d') (k : ℤ) where
  find-Created : find k t'.index_map ≡ node_from root k 0 vec none
  find-Created = rw (c.result, map-uncache) (c.found k)

  answers-Created : ByKey pid_of vec → AnswersBy t' d' vec k
  answers-Created ordered = elim (Bool-cases c.built.is_cached) [
    | inl on ↦
        answers_cached root k vec t' d' find-Created ordered (rw (c.result, cached-uncache) on)
          (rw c.result (vec-uncache c.built d' on ∙ c.vector))
    | inr off ↦
        let stored = c.stored.nodes_uncached off in
        answers_uncached root k vec t' d' find-Created ordered (rw (c.result, cached-uncache) off)
          c.built.invert_file_name (rw c.result (fp-uncache c.built d' _ off stored))
          (rw c.vector at stored)
  ]

-- `create` of a table from triples that are ordered by index, in a directory that can be written:
-- whatever the table held before, both variants of `getPostList` answer every index with its own
-- nodes in the order of the triples, and false if it has none, and the map has for it where they
-- stand, how many they are, and the root of the sum of their squared weights. So it is with and
-- without the cache, and whether the table is persistent or not.
pub create-answers :
    (root : ℤ → ℤ) (t : InvertTable2) (d : Files File) (vec : List StPidKidInfo2) (dir : String)
    (p : Bool)
    → d.writable (index_path dir) ≡ true
    → d.writable (invert_path dir) ≡ true
    → ByKey pid_of vec
    → (t' : InvertTable2) × (d' : Files File) × (create root t d vec dir p ≡ some (t', d'))
      × ((k : ℤ) → AnswersBy t' d' vec k × (find k t'.index_map ≡ node_from root k 0 vec none))
create-answers root t d vec dir p wi wv ordered =
    let (t', d', made, c) = create-Created root t d vec dir p wi wv ordered in
    (t', d', made, λ k. (answers-Created root c k ordered, find-Created root c k))
