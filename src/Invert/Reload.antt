-- ===== src/Invert/Reload.antt =====
-- `load` on the files that a persistent `create` wrote.
use Prim.Native.String.{String}
use learning_cpp.Prelude.{
  ℤ, ◌≡◌, refl, sym, ap, ◌∙◌, inl, inr, arith, Bool, true, false, not, Bool-cases, Option, none,
  some, List, [], ◌∷◌, ◌++◌, map, length-map, append-nil,
}
use native.Mathlib.Nat.{le_of_eq}
use learning_cpp.Invert.Node.{PidKidInfo, InvertNode, IndexNode, copy}
use learning_cpp.Invert.Sort.{sort}
use learning_cpp.Invert.Disk.{Disk, File}
use learning_cpp.Invert.Table.{
  InvertTable, index_path, invert_path, nodes_of, read_nodes, read_index, read_invert, create, load,
  get_invert_vec, find,
}
use learning_cpp.Invert.Build.{node_from}
use learning_cpp.Invert.Lookup.{postings, get-run_cached, get-run_uncached, run-postings}
use learning_cpp.Invert.Create.{create-Created}
use learning_cpp.Invert.Distinct.{Distinct, find-read_nodes}

-- What `load` returns: false only if the cache is on and the file is empty.
abbrev pub loaded : Bool → List InvertNode → Bool
loaded cached [] = not cached
loaded cached (n ∷ ns) = true

-- `load` into an empty table whose files are there.
record Loaded (u : InvertTable) (d : Disk) (i v : String) (m : List (ℤ × IndexNode))
    (ns : List InvertNode) (t : InvertTable) : Type 0 where
  result : load u d i v ≡ some (loaded u.use_cached ns, t)
  map_is : t.index_map ≡ read_nodes (nodes_of m) []
  cached : t.use_cached ≡ u.use_cached
  vector : u.use_cached ≡ true → t.invert_vec ≡ ns
  handle : u.use_cached ≡ false → t.fp ≡ some v

after_load : InvertTable → String → String → List (ℤ × IndexNode) → List InvertNode → InvertTable
after_load u i v m ns = record u {
  index_map = read_nodes (nodes_of m) [];
  index_file_name = i;
  invert_file_name = v;
  invert_vec = elim u.use_cached [ true ↦ ns | false ↦ [] ];
  fp = elim u.use_cached [ true ↦ u.fp | false ↦ some v ];
}

load-Loaded :
    (u : InvertTable) (d : Disk) (i v : String) (m : List (ℤ × IndexNode)) (ns : List InvertNode)
    → u.index_map ≡ []
    → u.invert_vec ≡ []
    → d.file i ≡ some (File.index_file (nodes_of m))
    → d.file v ≡ some (File.invert_file ns)
    → Loaded u d i v m ns (after_load u i v m ns)
unfolding load read_index read_invert after_load
load-Loaded u d i v m [] em ev fi fv = record {
  result = ground arith;
  map_is = refl;
  cached = refl;
  vector = λ e. rw e;
  handle = λ e. rw e;
}
load-Loaded u d i v m (n ∷ ns) em ev fi fv = record {
  result = ground (arith, append-nil ns);
  map_is = refl;
  cached = refl;
  vector = λ e. rw e;
  handle = λ e. rw e;
}

keep_found : (o : Option IndexNode) → (elim o [ none ↦ none | some n ↦ some n ]) ≡ o
keep_found none = refl
keep_found (some n) = refl

module _ {u : InvertTable} {d : Disk} {i v : String} {m : List (ℤ × IndexNode)}
    (vec : List PidKidInfo) {t : InvertTable} where
  Loaded-get :
      Loaded u d i v m (map copy (sort vec)) t
      → Distinct m
      → ((k : ℤ) → find k m ≡ node_from k 0 (sort vec) none)
      → d.file v ≡ some (File.invert_file (map copy (sort vec)))
      → (k : ℤ) → get_invert_vec t d k ≡ some (postings k vec)
  unfolding find
  Loaded-get l dm nodes fv k =
      let same : find k t.index_map ≡ node_from k 0 (sort vec) none =
        rw (l.map_is, find-read_nodes k m [] dm, nodes k)
          (keep_found (node_from k 0 (sort vec) none)) in
      let room = le_of_eq (sym (length-map copy (sort vec))) in
      elim (Bool-cases u.use_cached) [
        | inl on ↦
            get-run_cached k (sort vec) (map copy (sort vec)) t d same (l.cached ∙ on) (l.vector on)
              room
            ∙ ap some (run-postings k vec)
        | inr off ↦
            get-run_uncached t d v (map copy (sort vec)) k (sort vec) same (l.cached ∙ off)
              (l.handle off) fv room
            ∙ ap some (run-postings k vec)
      ]

-- A persistent `create` on an empty vector, then `load` of its files into an empty table: both
-- return, `load` with false only if the cache is on and there were no triples, and the loaded table
-- answers every index as the written one, with or without the cache.
pub get-load-create :
    (t u : InvertTable) (d : Disk) (vec : List PidKidInfo) (dir : String)
    → d.writable (index_path dir) ≡ true
    → d.writable (invert_path dir) ≡ true
    → t.invert_vec ≡ []
    → u.index_map ≡ []
    → u.invert_vec ≡ []
    → (t' : InvertTable) × (d' : Disk) × (u' : InvertTable) × (create t d vec dir true
        ≡ some (t', d', sort vec))
      × (load u d' (index_path dir) (invert_path dir)
          ≡ some (loaded u.use_cached (map copy (sort vec)), u'))
      × ((k : ℤ) → get_invert_vec u' d' k ≡ some (postings k vec))
get-load-create t u d vec dir wi wv et em ev =
    let (t', d', made, c) = create-Created t d vec dir true wi wv in
    let ns = map copy (sort vec) in
    let fi = rw c.index_name at (c.stored.index refl) in
    let fv =
      rw c.invert_name at (c.stored.nodes refl)
      ∙ ap (λ l. some (File.invert_file l)) (c.vector ∙ ap (λ l. l ++ ns) et) in
    let l = load-Loaded u d' (index_path dir) (invert_path dir) c.built.index_map ns em ev fi fv in
    (
      t',
      d',
      after_load u (index_path dir) (invert_path dir) c.built.index_map ns,
      made,
      l.result,
      λ k. Loaded-get vec l c.distinct c.nodes fv k,
    )
