-- ===== src/Invert2/Reload.antt =====
-- `load` of invert_table/invert_table.h on the files that a persistent `create` wrote.
use Prim.Native.String.{String}
use learning_cpp.Prelude.{
  ◌<◌, ℤ, ◌≡◌, refl, arith, true, false, Option, none, some, List, [], map, length, length-map,
}
use learning_cpp.Prelude.Runs.{ByKey}
use learning_cpp.Invert.Disk.{Files}
use learning_cpp.Invert2.Node.{StPidKidInfo2, InvertNode2, IndexNode, copy}
use learning_cpp.Invert2.Maps.{find}
use learning_cpp.Invert2.Table.{
  InvertTable2, File, index_path, invert_path, create, load, read_index, read_invert, read_nodes,
  second_nodes,
}
use learning_cpp.Invert2.Build.{pid_of, node_from}
use learning_cpp.Invert2.Distinct.{find-read_nodes}
use learning_cpp.Invert2.Persist.{create-Created}
use learning_cpp.Invert2.Answers.{AnswersBy, answers_uncached}

-- The table that `load` leaves without the cache: it has the file open.
after_load : InvertTable2 → String → String → List (ℤ × IndexNode) → InvertTable2
after_load u i v m = record u {
  index_map = read_nodes (second_nodes m) [];
  index_file_name = i;
  invert_file_name = v;
  invert_vec = [];
  fp = some v;
}

module _ (u : InvertTable2) (d : Files File) (i v : String) (m : List (ℤ × IndexNode))
    (ns : List InvertNode2) (fi : d.file i ≡ some (File.index_file (second_nodes m)))
    (fv : d.file v ≡ some (File.invert_file ns)) where
  load_uncached : u.is_cached ≡ false → load u d i v ≡ some (true, after_load u i v m)
  unfolding load read_index after_load
  load_uncached off = ground (arith, fi, fv)

  -- The vector is empty, and the nodes are read behind its end.
  load_cached : u.is_cached ≡ true → 0 < length ns → load u d i v ≡ none
  unfolding load read_index read_invert
  load_cached on some_nodes = ground (arith, fi, fv)

keep_found : (o : Option IndexNode) → (elim o [ none ↦ none | some n ↦ some n ]) ≡ o
keep_found none = refl
keep_found (some n) = refl

module _ (root : ℤ → ℤ) (t u : InvertTable2) (d : Files File) (vec : List StPidKidInfo2)
    (dir : String) (wi : d.writable (index_path dir) ≡ true)
    (wv : d.writable (invert_path dir) ≡ true) (ordered : ByKey pid_of vec) where
  -- A persistent `create` and what it wrote.
  record Made : Type 0 where
    table : InvertTable2
    disk : Files File
    index_map : List (ℤ × IndexNode)
    made : create root t d vec dir true ≡ some (table, disk)
    found : (k : ℤ) → find k (read_nodes (second_nodes index_map) []) ≡ node_from root k 0 vec none
    on_index : disk.file (index_path dir) ≡ some (File.index_file (second_nodes index_map))
    on_disk : disk.file (invert_path dir) ≡ some (File.invert_file (map copy vec))

  make : Made
  unfolding find
  make =
      let (t', d', made, c) = create-Created root t d vec dir true wi wv ordered in
      record {
        table = t';
        disk = d';
        index_map = c.built.index_map;
        made = made;
        found = λ k.
            rw (find-read_nodes k c.built.index_map [] c.distinct, c.found k)
              (keep_found (node_from root k 0 vec none));
        on_index = rw c.index_name at (c.stored.index refl);
        on_disk = rw c.vector at (rw c.invert_name at (c.stored.nodes refl));
      }

  -- A persistent `create` from triples that are ordered by index, in a directory that can be
  -- written, and then a `load` of its files without the cache: both return, and the loaded table,
  -- whatever it held before, answers every index as the triples say.
  pub load-create :
      u.is_cached ≡ false
      → (t' : InvertTable2) × (d' : Files File) × (u' : InvertTable2) × (create root t d vec dir
            true
          ≡ some (t', d'))
        × (load u d' (index_path dir) (invert_path dir) ≡ some (true, u'))
        × ((k : ℤ) → AnswersBy u' d' vec k)
  unfolding after_load
  load-create off =
      let c = make in
      let loaded = after_load u (index_path dir) (invert_path dir) c.index_map in
      (
        c.table,
        c.disk,
        loaded,
        c.made,
        load_uncached u c.disk (index_path dir) (invert_path dir) c.index_map (map copy vec)
            c.on_index c.on_disk off,
        λ k.
            answers_uncached root k vec loaded c.disk (c.found k) ordered off (invert_path dir) refl
              c.on_disk,
      )

  -- The same with the cache, from at least one triple: `create` returns, and `load` of its files
  -- faults, whatever the table held before, since the nodes are read behind the end of the vector.
  pub load_cached_faults :
      u.is_cached ≡ true
      → 0 < length vec
      → (t' : InvertTable2) × (d' : Files File) × (create root t d vec dir true ≡ some (t', d'))
        × (load u d' (index_path dir) (invert_path dir) ≡ none)
  load_cached_faults on some_triples =
      let c = make in
      (
        c.table,
        c.disk,
        c.made,
        load_cached u c.disk (index_path dir) (invert_path dir) c.index_map (map copy vec)
            c.on_index c.on_disk on (omega (arith, length-map copy vec, some_triples)),
      )
