-- ===== src/Tests/Invert2.antt =====
-- invert_table/ on a small table.
use learning_cpp.Prelude.{
  ◌==ℤ◌, ℤ, pos, negsuc, ◌≡◌, refl, arith, true, false, Option, none, some, List, [], ◌∷◌, select,
}
use learning_cpp.Prelude.Runs.{count_at, count_below, ByKey}
use learning_cpp.Invert.Creator.{has_key}
use learning_cpp.Invert.Disk.{Files}
use learning_cpp.Invert2.Node.{StPidKidInfo2, PostList, copy, add_square}
use learning_cpp.Invert2.Maps.{assign, find}
use learning_cpp.Invert2.Table.{
  InvertTable2, File, new_table, build_step, build_loop, create_invert_table, persist, write_index,
  write_invert, uncache, create, load, get_post_list, get_post_vec, read_invert_part, index_path,
  invert_path,
}
use learning_cpp.Invert2.ZTable.{ZInvertTable}
use learning_cpp.Invert2.ZTable as ZTable
use learning_cpp.Invert2.Build.{pid_of, node_from, weigh}
use learning_cpp.Invert2.Answers.{AnswersBy, nodes_of, posting}
use learning_cpp.Invert2.Create.{create-answers}
use learning_cpp.Invert2.Reload.{load-create, load_cached_faults}
use learning_cpp.Invert2.Creator.{
  SortMethod, InvertTableCreator, new_creator, add_triple, add_all, sort, insert, less_of,
}
use learning_cpp.Invert2.Creator as Creator
use learning_cpp.Invert2.Creator.Orders.{IsSorted}
use learning_cpp.Invert2.Creator.Filled.{ArrangedBy, create-arranged, create-z_table}

abbrev triple : ℤ → ℤ → ℤ → StPidKidInfo2
triple p k w = record { pid = p; kid = k; weight = w; weight2 = pos 0 }

abbrev ordered : List StPidKidInfo2
ordered =
    triple (negsuc 1) (pos 2) (pos 9)
    ∷ triple (pos 7) (pos 1) (pos 5)
    ∷ triple (pos 7) (pos 3) (pos 8)
    ∷ []

abbrev mixed : List StPidKidInfo2
mixed =
    triple (pos 7) (pos 1) (pos 5)
    ∷ triple (negsuc 1) (pos 2) (pos 9)
    ∷ triple (pos 7) (pos 3) (pos 8)
    ∷ triple (pos 7) (pos 1) (pos 6)
    ∷ []

abbrev empty_disk : Files File
empty_disk = record { file = λ n. none; writable = λ n. true }

abbrev same_root : ℤ → ℤ
same_root total = total

program : Unit {0}
unfolding add_square count_at count_below assign find build_step build_loop create_invert_table
    persist write_index write_invert uncache create get_post_list get_post_vec read_invert_part
    weigh has_key add_triple add_all sort insert less_of Creator.create
program = tt

abbrev ask : ℤ → Option (InvertTable2 × Files File) → Option PostList
ask k none = none
ask k (some (t, d)) = get_post_vec t d k

get_uncached :
    ask (pos 7) (create same_root (new_table false) empty_disk ordered "." false)
    ≡ some (
        PostList.posted 2
          (copy (triple (pos 7) (pos 1) (pos 5)) ∷ copy (triple (pos 7) (pos 3) (pos 8)) ∷ []))
unfolding program
get_uncached = refl

-- The heavier first, and a product only once, with its first weight.
get_arranged :
    ask
      (pos 7)
      (Creator.create
        (create same_root (new_table true) empty_disk)
        (add_all mixed (new_creator "." SortMethod.by_weight true))).0
    ≡ some (
        PostList.posted 2
          (copy (triple (pos 7) (pos 3) (pos 8)) ∷ copy (triple (pos 7) (pos 1) (pos 5)) ∷ []))
unfolding program
get_arranged = refl

total_weight : weigh (pos 7) ordered (pos 0) ≡ pos 89
unfolding program
total_weight = refl

-- 2 ^ 31 is stored as an int.
total_weight_wraps : add_square (pos 2147483647) (negsuc 0) ≡ negsuc 2147483647
unfolding program
total_weight_wraps = refl

ordered-ByKey : ByKey pid_of ordered
ordered-ByKey = ((omega arith, (omega arith, tt)), ((omega arith, tt), (tt, tt)))

create-answers_example :
    (t : InvertTable2) × (d : Files File) × (create same_root
        (new_table true)
        empty_disk
        ordered
        "."
        true
      ≡ some (t, d))
    × ((k : ℤ)
        → AnswersBy t d ordered k × (find k t.index_map ≡ node_from same_root k 0 ordered none))
create-answers_example =
    create-answers same_root (new_table true) empty_disk ordered "." true refl refl ordered-ByKey

load-create_example :
    (t : InvertTable2) × (d : Files File) × (u : InvertTable2) × (create same_root
        (new_table true)
        empty_disk
        ordered
        "."
        true
      ≡ some (t, d))
    × (load (new_table false) d (index_path ".") (invert_path ".") ≡ some (true, u))
    × ((k : ℤ) → AnswersBy u d ordered k)
load-create_example =
    load-create same_root (new_table true) (new_table false) empty_disk ordered "." refl refl
      ordered-ByKey refl

load_cached_faults_example :
    (t : InvertTable2) × (d : Files File) × (create same_root
        (new_table true)
        empty_disk
        ordered
        "."
        true
      ≡ some (t, d))
    × (load (new_table true) d (index_path ".") (invert_path ".") ≡ none)
load_cached_faults_example =
    load_cached_faults same_root (new_table true) (new_table true) empty_disk ordered "." refl refl
      ordered-ByKey refl (omega arith)

abbrev collected : InvertTableCreator
unfolding add_all add_triple has_key
collected = add_all mixed (new_creator "." SortMethod.by_weight true)

create-arranged_example :
    (t : InvertTable2) × (d : Files File) × ((Creator.create
        (create same_root (new_table true) empty_disk)
        collected).0
      ≡ some (t, d))
    × ((k : ℤ) → ArrangedBy SortMethod.by_weight t d collected.triple_vec k)
    × ((k : ℤ)
        → IsSorted SortMethod.by_weight
            (sort (less_of SortMethod.by_weight) (select (λ x. x.pid ==ℤ k) collected.triple_vec)))
    × ((k : ℤ)
        → SortMethod.by_weight ≡ SortMethod.by_index
        → get_post_vec t d k ≡ some (posting (nodes_of k collected.triple_vec)))
unfolding add_all add_triple has_key
create-arranged_example = create-arranged same_root collected (new_table true) empty_disk refl refl

abbrev old_z_table : ZInvertTable
old_z_table = record {
  id2_nodes = (pos 7, copy (triple (pos 7) (pos 9) (pos 9)) ∷ []) ∷ [];
  dup_filter = [];
}

create-z_table_example :
    (t : InvertTable2) × (d : Files File) × ((Creator.create
        (create same_root (new_table false) empty_disk)
        (add_all mixed (new_creator "." SortMethod.by_index true))).0
      ≡ some (t, d))
    × ((k : ℤ) → get_post_vec t d k ≡ ZTable.get_post_list (ZTable.create mixed old_z_table) k)
create-z_table_example =
    create-z_table same_root mixed "." true (new_table false) empty_disk old_z_table refl refl
