-- ===== src/Tests/Invert.antt =====
-- invert/invert.hpp and invert/invertCreator.cpp on a small table.
use learning_cpp.Prelude.{
  ◌≤◌, ℤ, pos, negsuc, ◌≡◌, refl, arith, Bool, true, false, Option, none, some, List, [], ◌∷◌, map,
}
use learning_cpp.Invert.Node.{PidKidInfo, InvertNode, copy, less}
use learning_cpp.Invert.Sort.{insert, sort}
use learning_cpp.Invert.Disk.{Disk}
use learning_cpp.Prelude.Runs.{count_at, count_below}
use learning_cpp.Invert.Table.{
  InvertTable, new_table, assign, find, build_step, build_loop, create_invert_table, persist,
  uncache, create, read_nodes, read_index, read_invert, load, read_invert_part, get_invert_info,
  get_invert_vec, index_path, invert_path,
}
use learning_cpp.Invert.Lookup.{postings, run_of}
use learning_cpp.Invert.Answers.{get-create, get-create_again}
use learning_cpp.Invert.Reload.{loaded, get-load-create}
use learning_cpp.Invert.Creator as Creator
use learning_cpp.Invert.Creator.{new_creator, add_all, count_key, triple_of, create-add_all}

abbrev triple : ℤ → ℤ → ℤ → PidKidInfo
triple p k w = record { pid = p; kid = k; weight = w }

abbrev triples : List PidKidInfo
triples =
    triple (pos 7) (pos 1) (pos 5)
    ∷ triple (negsuc 1) (pos 2) (pos 9)
    ∷ triple (pos 7) (pos 3) (pos 8)
    ∷ triple (pos 7) (pos 4) (pos 5)
    ∷ []

abbrev empty_disk : Disk
empty_disk = record { file = λ n. none; writable = λ n. true }

program : Unit {0}
unfolding less insert sort count_at count_below assign find build_step build_loop
    create_invert_table persist uncache create read_nodes read_index read_invert load
    read_invert_part get_invert_info get_invert_vec Creator.has_key Creator.add_triple add_all
    Creator.create count_key triple_of
program = tt

-- The answer for an index after a run of `create`.
abbrev ask : ℤ → Option (InvertTable × Disk × List PidKidInfo) → Option (Bool × List InvertNode)
ask k none = none
ask k (some (t, d, _)) = get_invert_vec t d k

abbrev expected : List InvertNode
expected =
    record { id = pos 3; weight = pos 8 }
    ∷ record { id = pos 1; weight = pos 5 }
    ∷ record { id = pos 4; weight = pos 5 }
    ∷ []

get_cached :
    ask (pos 7) (create (new_table true) empty_disk triples "." false) ≡ some (true, expected)
unfolding program
get_cached = refl

get_uncached :
    ask (pos 7) (create (new_table false) empty_disk triples "." true) ≡ some (true, expected)
unfolding program
get_uncached = refl

get_absent : ask (pos 8) (create (new_table true) empty_disk triples "." true) ≡ some (false, [])
unfolding program
get_absent = refl

abbrev stale : InvertTable
stale = record (new_table true) { invert_vec = record { id = pos 90; weight = pos 1 } ∷ [] }

abbrev one_triple : List PidKidInfo
one_triple = triple (pos 7) (pos 1) (pos 5) ∷ []

-- The product of index 7 is 1, and the answer is the product 90 of an earlier table.
get_stale :
    ask (pos 7) (create stale empty_disk one_triple "." false)
    ≡ some (true, record { id = pos 90; weight = pos 1 } ∷ [])
unfolding program
get_stale = refl

get-create_example :
    (t : InvertTable) × (d : Disk) × (create (new_table true) empty_disk triples "." true
      ≡ some (t, d, sort triples))
    × ((k : ℤ) → get_invert_vec t d k ≡ some (postings k triples))
get-create_example = get-create (new_table true) empty_disk triples "." true refl refl refl

get-create_again_example :
    (t : InvertTable) × (d : Disk) × (create stale empty_disk one_triple "." false
      ≡ some (t, d, sort one_triple))
    × ((k : ℤ) → get_invert_vec t d k ≡ some (run_of k (sort one_triple) stale.invert_vec))
get-create_again_example =
    get-create_again stale empty_disk one_triple "." false refl refl (omega arith)

get-load-create_example :
    (t : InvertTable) × (d : Disk) × (u : InvertTable) × (create
        (new_table true)
        empty_disk
        triples
        "."
        true
      ≡ some (t, d, sort triples))
    × (load (new_table false) d (index_path ".") (invert_path ".")
        ≡ some (loaded false (map copy (sort triples)), u))
    × ((k : ℤ) → get_invert_vec u d k ≡ some (postings k triples))
get-load-create_example =
    get-load-create (new_table true) (new_table false) empty_disk triples "." refl refl refl refl
      refl

create-add_all_example :
    let c = add_all triples (new_creator "." true) in
    ((p k : ℤ)
      → (count_key p k c.triple_vec ≤ 1) × (triple_of p k c.triple_vec ≡ triple_of p k triples))
    × ((t : InvertTable) × (d : Disk) × (c' : Creator.InvertCreator) × (Creator.create c
            (new_table true)
            empty_disk
          ≡ some (t, d, c'))
        × ((p : ℤ) → get_invert_vec t d p ≡ some (postings p c.triple_vec)))
create-add_all_example = create-add_all triples "." true (new_table true) empty_disk refl refl refl
