-- ===== src/Invert2/Creator/Filled.antt =====
-- The creator of invert_table/invert_table_creator.hpp with the table of invert_table.h, and beside
-- it the table of z_invert_table.h that is given the same triples.
use Prim.Native.String.{String}
use learning_cpp.Prelude.{
  ℤ, ==ℤ_iff, ◌≡◌, refl, sym, ap, ◌∙◌, arith, Bool, true, Option, none, some, if◌then◌else◌, List,
  [], ◌∷◌, ◌++◌, map, select,
}
use learning_cpp.Invert.Disk.{Files}
use learning_cpp.Invert2.Node.{StPidKidInfo2, InvertNode2, copy}
use learning_cpp.Invert2.Maps.{find, find-assign}
use learning_cpp.Invert2.Table.{
  InvertTable2, File, index_path, invert_path, get_post_vec, get_post_list,
}
use learning_cpp.Invert2.Table as Table
use learning_cpp.Invert2.ZTable.{ZInvertTable, nodes_at}
use learning_cpp.Invert2.ZTable as ZTable
use learning_cpp.Invert2.Build.{has_pid}
use learning_cpp.Invert2.Answers.{nodes_of, posting, window}
use learning_cpp.Invert2.Create.{create-answers}
use learning_cpp.Invert2.Creator.{
  SortMethod, InvertTableCreator, new_creator, add_triple, add_all, sort, less_of, create,
}
use learning_cpp.Invert2.Creator.Orders.{
  IsSorted, sort-IsSorted, IsSorted-ByKey, select-sort, sort_by_index,
}

-- The answers of a table, for the triples that the creator has collected and its method.
abbrev pub ArrangedBy : SortMethod → InvertTable2 → Files File → List StPidKidInfo2 → ℤ → Type 0
ArrangedBy m t d vec k =
    let own = posting (map copy (sort (less_of m) (select (has_pid k) vec))) in
    (get_post_vec t d k ≡ some own) × (window (get_post_list t d k) ≡ some own)

-- A creator with any method that makes a table, in a directory that can be written: both variants of
-- `getPostList` answer every index with the triples that were collected for it, sorted by the method's
-- comparator, which for the method by index is the order in which they were added.
pub create-arranged :
    (root : ℤ → ℤ) (c : InvertTableCreator) (t : InvertTable2) (d : Files File)
    → d.writable (index_path c.dir) ≡ true
    → d.writable (invert_path c.dir) ≡ true
    → (t' : InvertTable2) × (d' : Files File) × ((create (Table.create root t d) c).0
        ≡ some (t', d'))
      × ((k : ℤ) → ArrangedBy c.sort_method t' d' c.triple_vec k)
      × ((k : ℤ)
          → IsSorted c.sort_method (sort (less_of c.sort_method) (select (has_pid k) c.triple_vec)))
      × ((k : ℤ)
          → c.sort_method ≡ SortMethod.by_index
          → get_post_vec t' d' k ≡ some (posting (nodes_of k c.triple_vec)))
unfolding create
create-arranged root c t d wi wv =
    let m = c.sort_method in
    let sorted = sort (less_of m) c.triple_vec in
    let (t', d', made, answers) =
      create-answers root t d sorted c.dir c.persistent wi wv
        (IsSorted-ByKey m sorted (sort-IsSorted m c.triple_vec)) in
    let arranged : (k : ℤ) → ArrangedBy m t' d' c.triple_vec k =
      λ k. rw (← select-sort m k c.triple_vec) (answers k).0 in
    (
      t',
      d',
      made,
      arranged,
      λ k. sort-IsSorted m (select (has_pid k) c.triple_vec),
      λ k e.
          (arranged k).0
          ∙ ap (λ n. some (posting (map copy (sort (less_of n) (select (has_pid k) c.triple_vec)))))
              e
          ∙ ap (λ l. some (posting (map copy l))) (sort_by_index k c.triple_vec),
    )

-- What the map of a `ZInvertTable` has for an index with these nodes.
abbrev entry : List InvertNode2 → Option (List InvertNode2)
entry [] = none
entry (n ∷ ns) = some (n ∷ ns)

-- A creator and a `ZInvertTable` that were given the same triples.
record Alike (c : InvertTableCreator) (z : ZInvertTable) : Type 0 where
  same_filter : c.dup_filter ≡ z.dup_filter
  entries : (k : ℤ) → find k z.id2_nodes ≡ entry (nodes_of k c.triple_vec)

nodes_of-append :
    (k : ℤ) (l : List StPidKidInfo2) (x : StPidKidInfo2)
    → nodes_of k (l ++ x ∷ []) ≡ (if has_pid k x then nodes_of k l ++ copy x ∷ [] else nodes_of k l)
nodes_of-append k [] x = ground arith
nodes_of-append k (y ∷ l) x = ground (arith, nodes_of-append k l x)

entry_back : (l : List InvertNode2) → (elim (entry l) [ none ↦ [] | some nodes ↦ nodes ]) ≡ l
entry_back [] = refl
entry_back (n ∷ ns) = refl

entry_append : (l : List InvertNode2) (n : InvertNode2) → entry (l ++ n ∷ []) ≡ some (l ++ n ∷ [])
entry_append [] n = refl
entry_append (x ∷ l) n = refl

insert-Alike :
    (x : StPidKidInfo2) (c : InvertTableCreator) (z : ZInvertTable)
    → Alike c z
    → Alike (add_triple x c) (ZTable.insert x z)
unfolding add_triple ZTable.insert
insert-Alike x c z a =
    let same = a.same_filter in
    record {
      same_filter = ground arith;
      entries = λ k.
          let own = a.entries x.pid in
          let other = a.entries k in
          ground (
            arith,
            same,
            find-assign k x.pid (nodes_at x.pid z.id2_nodes ++ copy x ∷ []) z.id2_nodes,
            nodes_of-append k c.triple_vec x,
            ==ℤ_iff x.pid k,
            entry_back (nodes_of x.pid c.triple_vec),
            entry_append (nodes_of k c.triple_vec) (copy x),
          );
    }

add_all-Alike :
    (l : List StPidKidInfo2) (c : InvertTableCreator) (z : ZInvertTable)
    → Alike c z
    → Alike (add_all l c) (ZTable.create_invert_table l z)
unfolding add_all ZTable.create_invert_table
add_all-Alike [] c z a = a
add_all-Alike (x ∷ l) c z a =
    add_all-Alike l (add_triple x c) (ZTable.insert x z) (insert-Alike x c z a)

get-entry :
    (z : ZInvertTable) (k : ℤ) (nodes : List InvertNode2)
    → find k z.id2_nodes ≡ entry nodes
    → ZTable.get_post_list z k ≡ some (posting nodes)
unfolding ZTable.get_post_list
get-entry z k [] e = ground arith
get-entry z k (n ∷ ns) e = ground arith

-- What the triples do not change.
add_all_keeps :
    (l : List StPidKidInfo2) (c : InvertTableCreator)
    → ((add_all l c).dir ≡ c.dir) × ((add_all l c).sort_method ≡ c.sort_method)
unfolding add_all add_triple
add_all_keeps [] c = (refl, refl)
add_all_keeps (x ∷ l) c = ground (arith, add_all_keeps l (add_triple x c))

-- A new creator by index that is given the triples of `l`, in a directory that can be written, and a
-- `ZInvertTable`, whatever it held, that is created from `l`: for every index, the table of the
-- creator gives the vector of the nodes that the `ZInvertTable` gives.
pub create-z_table :
    (root : ℤ → ℤ) (l : List StPidKidInfo2) (dir : String) (p : Bool) (t : InvertTable2)
    (d : Files File) (z : ZInvertTable)
    → d.writable (index_path dir) ≡ true
    → d.writable (invert_path dir) ≡ true
    → (t' : InvertTable2) × (d' : Files File) × ((create
          (Table.create root t d)
          (add_all l (new_creator dir SortMethod.by_index p))).0
        ≡ some (t', d'))
      × ((k : ℤ) → get_post_vec t' d' k ≡ ZTable.get_post_list (ZTable.create l z) k)
unfolding ZTable.create find
create-z_table root l dir p t d z wi wv =
    let start = new_creator dir SortMethod.by_index p in
    let c = add_all l start in
    let (at_dir, by) = add_all_keeps l start in
    let alike =
      add_all-Alike l start (record { id2_nodes = []; dup_filter = [] })
        (record { same_filter = refl; entries = λ k. refl }) in
    let (t', d', made, _, _, answers) = create-arranged root c t d (rw at_dir wi) (rw at_dir wv) in
    (
      t',
      d',
      made,
      λ k. answers k by ∙ sym (get-entry _ k (nodes_of k c.triple_vec) (alike.entries k)),
    )
