-- ===== src/Invert2/Persist.antt =====
-- `create` of invert_table/invert_table.h as it ends: the table, its files, and what went to them.
use Prim.Native.String.{String}
use text.Mathlib.TextEquality.{eq_iff}
use text.Mathlib.TextLemmas.{append_cancel_left}
use learning_cpp.Prelude.{
  ℤ, ◌≡◌, refl, ◌≢◌, ◌∙◌, inl, inr, Bool, true, false, Bool-cases, none, some, List, [], ◌∷◌, map,
}
use learning_cpp.Prelude.Runs.{ByKey}
use learning_cpp.Invert.Disk.{Files, after_write, file-after_write_self, file-after_write_ne}
use learning_cpp.Invert2.Node.{StPidKidInfo2, copy}
use learning_cpp.Invert2.Maps.{find}
use learning_cpp.Invert2.Table.{
  InvertTable2, File, clear, second_nodes, write_index, write_invert, index_path, invert_path,
  persist, uncache, create, create_invert_table,
}
use learning_cpp.Invert2.Distinct.{Distinct, create_invert_table-Distinct}
use learning_cpp.Invert2.Build.{
  pid_of, node_from, find-create_invert_table, vec-create_invert_table,
}

-- After `persist` the files hold the table: the nodes without the cache or for a persistent table,
-- the index for a persistent one.
pub record Stored (t : InvertTable2) (is_persistent : Bool) (d : Files File) : Type 0 where
  pub nodes_uncached :
      t.is_cached ≡ false → d.file t.invert_file_name ≡ some (File.invert_file t.invert_vec)
  pub nodes :
      is_persistent ≡ true → d.file t.invert_file_name ≡ some (File.invert_file t.invert_vec)
  pub index :
      is_persistent ≡ true
      → d.file t.index_file_name ≡ some (File.index_file (second_nodes t.index_map))

module _ (t : InvertTable2) (d : Files File) (ne : t.index_file_name ≢ t.invert_file_name)
    (wi : d.writable t.index_file_name ≡ true) (wv : d.writable t.invert_file_name ≡ true) where
  persist-Stored : (p : Bool) → (d' : Files File) × (persist t d p ≡ some d') × Stored t p d'
  unfolding persist write_index write_invert
  persist-Stored true =
      let index = File.index_file (second_nodes t.index_map) in
      let with_index = after_write d t.index_file_name index in
      let nodes =
        file-after_write_self with_index t.invert_file_name (File.invert_file t.invert_vec) in
      (
        after_write with_index t.invert_file_name (File.invert_file t.invert_vec),
        rw (wi, wv),
        record {
          nodes_uncached = λ _. nodes;
          nodes = λ _. nodes;
          index = λ _.
              file-after_write_ne with_index t.invert_file_name t.index_file_name _ ne
              ∙ file-after_write_self d t.index_file_name index;
        },
      )
  persist-Stored false = elim (Bool-cases t.is_cached) [
    | inl c ↦ (d, rw c, record { nodes_uncached = λ e. cc; nodes = λ e. cc; index = λ e. cc })
    | inr c ↦ (
      after_write d t.invert_file_name (File.invert_file t.invert_vec),
      rw (c, wv),
      record {
        nodes_uncached =
            λ _. file-after_write_self d t.invert_file_name (File.invert_file t.invert_vec);
        nodes = λ e. cc;
        index = λ e. cc;
      },
    )
  ]

module _ (root : ℤ → ℤ) where
  pub record Created (cached : Bool) (vec : List StPidKidInfo2) (dir : String) (p : Bool)
      (t' : InvertTable2) (d' : Files File) : Type 0 where
    pub built : InvertTable2
    pub found : (k : ℤ) → find k built.index_map ≡ node_from root k 0 vec none
    pub distinct : Distinct built.index_map
    pub vector : built.invert_vec ≡ map copy vec
    pub same_cache : built.is_cached ≡ cached
    pub index_name : built.index_file_name ≡ index_path dir
    pub invert_name : built.invert_file_name ≡ invert_path dir
    pub stored : Stored built p d'
    pub result : t' ≡ uncache built d'

  names_ne : ◌≢◌ {A = String} "/index.idx" "/invert.idx"
  names_ne e = let h : false ≡ true = (eq_iff "/index.idx" "/invert.idx").1 e in cc

  paths_ne : (dir : String) → index_path dir ≢ invert_path dir
  paths_ne dir e = names_ne (append_cancel_left dir "/index.idx" "/invert.idx" e)

  cached-create_invert_table :
      (t : InvertTable2) (vec : List StPidKidInfo2)
      → ((create_invert_table root t vec).is_cached ≡ t.is_cached)
        × ((create_invert_table root t vec).index_file_name ≡ t.index_file_name)
        × ((create_invert_table root t vec).invert_file_name ≡ t.invert_file_name)
  unfolding create_invert_table
  cached-create_invert_table t [] = (refl, refl, refl)
  cached-create_invert_table t (x ∷ l) = (refl, refl, refl)

  pub create-Created :
      (t : InvertTable2) (d : Files File) (vec : List StPidKidInfo2) (dir : String) (p : Bool)
      → d.writable (index_path dir) ≡ true
      → d.writable (invert_path dir) ≡ true
      → ByKey pid_of vec
      → (t' : InvertTable2) × (d' : Files File) × (create root t d vec dir p ≡ some (t', d'))
        × Created t.is_cached vec dir p t' d'
  unfolding create
  create-Created t d vec dir p wi wv ordered =
      let named : InvertTable2 = record (clear t) {
        index_file_name = index_path dir;
        invert_file_name = invert_path dir;
      } in
      let built = create_invert_table root named vec in
      let (same_cache, index_name, invert_name) = cached-create_invert_table named vec in
      let (d', e, s) =
        persist-Stored built d (rw (index_name, invert_name) (paths_ne dir)) (rw index_name wi)
          (rw invert_name wv) p in
      (
        uncache built d',
        d',
        rw (e, create),
        record {
          built = built;
          found = λ k. find-create_invert_table root k named vec refl ordered;
          distinct = create_invert_table-Distinct root named vec refl;
          vector = vec-create_invert_table root named vec;
          same_cache = same_cache;
          index_name = index_name;
          invert_name = invert_name;
          stored = s;
          result = refl;
        },
      )
