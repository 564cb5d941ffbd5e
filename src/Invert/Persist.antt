-- ===== src/Invert/Persist.antt =====
-- What the writes of `create` leave on the disk.
use learning_cpp.Prelude.{◌≡◌, ◌≢◌, ◌∙◌, inl, inr, Bool, true, false, Bool-cases, some}
use learning_cpp.Invert.Disk.{Disk, File, after_write, file-after_write_self, file-after_write_ne}
use learning_cpp.Invert.Table.{InvertTable, nodes_of, persist}

-- After `persist` the files hold the table: the nodes without the cache or for a persistent table,
-- the index for a persistent one.
pub record Stored (t : InvertTable) (is_persistent : Bool) (d : Disk) : Type 0 where
  pub nodes_uncached :
      t.use_cached ≡ false → d.file t.invert_file_name ≡ some (File.invert_file t.invert_vec)
  pub nodes :
      is_persistent ≡ true → d.file t.invert_file_name ≡ some (File.invert_file t.invert_vec)
  pub index :
      is_persistent ≡ true
      → d.file t.index_file_name ≡ some (File.index_file (nodes_of t.index_map))

module _ (t : InvertTable) (d : Disk) (ne : t.index_file_name ≢ t.invert_file_name)
    (wi : d.writable t.index_file_name ≡ true) (wv : d.writable t.invert_file_name ≡ true) where
  pub persist-Stored : (p : Bool) → (d' : Disk) × (persist t d p ≡ some d') × Stored t p d'
  unfolding persist
  persist-Stored true =
      let with_index = after_write d t.index_file_name (File.index_file (nodes_of t.index_map)) in
      let both = after_write with_index t.invert_file_name (File.invert_file t.invert_vec) in
      let nodes =
        file-after_write_self with_index t.invert_file_name (File.invert_file t.invert_vec) in
      (
        both,
        rw (wi, wv),
        record {
          nodes_uncached = λ _. nodes;
          nodes = λ _. nodes;
          index = λ _.
              file-after_write_ne with_index t.invert_file_name t.index_file_name _ ne
              ∙ file-after_write_self d t.index_file_name _;
        },
      )
  persist-Stored false = elim (Bool-cases t.use_cached) [
    | inl c ↦ (d, rw c, record { nodes_uncached = λ e. cc; nodes = λ e. cc; index = λ e. cc })
    | inr c ↦ (
      after_write d t.invert_file_name (File.invert_file t.invert_vec),
      rw (c, wv),
      record {
        nodes_uncached =
            λ _. file-after_write_self d t.invert_file_name (File.invert_file t.invert_vec);
        nodes = λ e. cc;
        index = λ e. cc;
      },
    )
  ]
