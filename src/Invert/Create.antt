-- ===== src/Invert/Create.antt =====
-- `create` of invert/invert.hpp, and what can be read from the table afterwards.
use Prim.Native.String.{String}
use text.Mathlib.TextEquality.{eq_iff}
use learning_cpp.Prelude.{
  ◌+◌, ℤ, ◌==ℤ◌, eq_of_parts, ◌≡◌, refl, ap, ◌∙◌, ◌≢◌, arith, Bool, true, false, none, some,
  if◌then◌else◌, List, [], ◌∷◌, ◌++◌, map, sym, inl, append-nil,
}
use learning_cpp.Invert.Node.{PidKidInfo, copy}
use learning_cpp.Invert.Sort.{sort, sort-IsSorted, sort_cons}
use learning_cpp.Prelude.Runs.{count_below_of_le, count_at_of_lt, count_at, count_below}
use learning_cpp.Invert.Groups.{count_pid, ByPid, IsSorted-ByPid, pid_of}
use learning_cpp.Invert.Disk.{Disk}
use learning_cpp.Invert.Table.{
  InvertTable, Builder, find, clear, build_step, build_loop, create_invert_table, create, uncache,
  index_path, invert_path,
}
use learning_cpp.Invert.Distinct.{Distinct, build_loop-Distinct}
use learning_cpp.Invert.Persist.{Stored, persist-Stored}
use text.Mathlib.TextLemmas.{append_cancel_left}
use learning_cpp.Invert.Build.{node_from, closed_map, find-build_loop, vec-build_loop}

abbrev first_builder : Builder → PidKidInfo → Builder
first_builder b x = record {
  node = record { id = x.pid; offset = 0; count = 1 };
  map = b.map;
  vec = b.vec ++ copy x ∷ [];
}

first_step : (x : PidKidInfo) (b : Builder) → build_step 0 x b ≡ first_builder b x
unfolding build_step
first_step x b = ground arith

first_node :
    (k : ℤ) (x : PidKidInfo) (l : List PidKidInfo)
    → ByPid (x ∷ l)
    → (if x.pid ==ℤ k
        then some (record { id = x.pid; offset = 0; count = 1 + count_pid k l })
        else node_from k 1 l none)
      ≡ node_from k 0 (x ∷ l) none
unfolding count_at count_below
first_node k x l h = ground (
  arith,
  count_at_of_lt pid_of x.pid k l h.0,
  count_below_of_le pid_of x.pid k l h.0,
  eq_of_parts x.pid k,
)

-- The whole loop, from an empty map.
build_all :
    (k : ℤ) (x : PidKidInfo) (l : List PidKidInfo) (b : Builder)
    → b.map ≡ []
    → ByPid (x ∷ l)
    → find k (closed_map (build_loop 0 (x ∷ l) b)) ≡ node_from k 0 (x ∷ l) none
unfolding build_loop find
build_all k x l b e h =
    ap (λ c. find k (closed_map (build_loop 1 l c))) (first_step x b)
    ∙ find-build_loop k 1 l (first_builder b x) (omega arith) h.0 h.1
    ∙ rw e (first_node k x l h)

-- What `createInvertTable` leaves behind when the map is empty before it.
record Built (t : InvertTable) (vec : List PidKidInfo) (r : InvertTable × List PidKidInfo)
    : Type 0 where
  nodes : (k : ℤ) → find k r.0.index_map ≡ node_from k 0 (sort vec) none
  vector : r.0.invert_vec ≡ t.invert_vec ++ map copy (sort vec)
  sorted : r.1 ≡ sort vec
  distinct : Distinct r.0.index_map
  cached : r.0.use_cached ≡ t.use_cached
  index_name : r.0.index_file_name ≡ t.index_file_name
  invert_name : r.0.invert_file_name ≡ t.invert_file_name

create_invert_table-Built :
    (t : InvertTable) (vec : List PidKidInfo)
    → t.index_map ≡ []
    → Built t vec (create_invert_table t vec)
unfolding create_invert_table sort count_at find
create_invert_table-Built t [] e = record {
  nodes = λ k. rw e;
  vector = sym (append-nil t.invert_vec);
  sorted = refl;
  distinct = rw e tt;
  cached = refl;
  index_name = refl;
  invert_name = refl;
}
create_invert_table-Built t (x ∷ l) e =
    let (y, r, s) = sort_cons x l in
    let by_pid = rw s at (IsSorted-ByPid _ (sort-IsSorted (x ∷ l))) in
    record {
      nodes = λ k. rw s (build_all k y r _ e by_pid);
      vector = vec-build_loop 0 _ _;
      sorted = refl;
      distinct = rw s (build_loop-Distinct 0 y r _ (inl refl) (rw e tt));
      cached = refl;
      index_name = refl;
      invert_name = refl;
    }

-- `create` as it ends: the table is built, the files are written, and without the cache the vector
-- has gone to the file.
pub record Created (t : InvertTable) (vec : List PidKidInfo) (dir : String) (p : Bool)
    (t' : InvertTable) (d' : Disk) : Type 0 where
  pub built : InvertTable
  pub nodes : (k : ℤ) → find k built.index_map ≡ node_from k 0 (sort vec) none
  pub vector : built.invert_vec ≡ t.invert_vec ++ map copy (sort vec)
  pub distinct : Distinct built.index_map
  pub cached : built.use_cached ≡ t.use_cached
  pub index_name : built.index_file_name ≡ index_path dir
  pub invert_name : built.invert_file_name ≡ invert_path dir
  pub stored : Stored built p d'
  pub result : t' ≡ uncache built d'

names_ne : ◌≢◌ {A = String} "/Index.dict" "/Invert.dict"
names_ne e = let h : false ≡ true = (eq_iff "/Index.dict" "/Invert.dict").1 e in cc

paths_ne : (dir : String) → index_path dir ≢ invert_path dir
paths_ne dir e = names_ne (append_cancel_left dir "/Index.dict" "/Invert.dict" e)

pub create-Created :
    (t : InvertTable) (d : Disk) (vec : List PidKidInfo) (dir : String) (p : Bool)
    → d.writable (index_path dir) ≡ true
    → d.writable (invert_path dir) ≡ true
    → (t' : InvertTable) × (d' : Disk) × (create t d vec dir p ≡ some (t', d', sort vec))
      × Created t vec dir p t' d'
unfolding create
create-Created t d vec dir p wi wv =
    let named : InvertTable = record (clear t) {
      index_file_name = index_path dir;
      invert_file_name = invert_path dir;
    } in
    let b = create_invert_table-Built named vec refl in
    let built = (create_invert_table named vec).0 in
    let (d', e, s) =
      persist-Stored built d (rw (b.index_name, b.invert_name) (paths_ne dir)) (rw b.index_name wi)
        (rw b.invert_name wv) p in
    (
      uncache built d',
      d',
      rw e (ap (λ l. some (uncache built d', d', l)) b.sorted),
      record {
        built = built;
        nodes = b.nodes;
        vector = b.vector;
        distinct = b.distinct;
        cached = b.cached;
        index_name = b.index_name;
        invert_name = b.invert_name;
        stored = s;
        result = refl;
      },
    )
