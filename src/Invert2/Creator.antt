-- ===== src/Invert2/Creator.antt =====
-- `InvertTableCreator` of invert_table/invert_table_creator.hpp: triples are collected without
-- repetition, arranged, and handed to the table's `create`, the parameter `make`. A stable sort is an
-- insertion sort; `std::sort` is used with orders that are total on what the filter lets through.
pub mod Orders
pub mod Filled
use Prim.Native.String.{String}
use learning_cpp.Prelude.{ℤ, Bool, if◌then◌else◌, List, [], ◌∷◌, ◌++◌}
use learning_cpp.Invert.Creator.{has_key}
use learning_cpp.Invert2.Node.{StPidKidInfo2, less_by_index, less_by_id, less_by_weight}

pub data SortMethod : Type 0 where
  by_index by_id by_weight : SortMethod

pub record InvertTableCreator : Type 0 where
  pub dir : String
  pub persistent : Bool
  pub sort_method : SortMethod
  pub triple_vec : List StPidKidInfo2
  pub dup_filter : List (ℤ × ℤ)

-- The constructor; the directory is made by a library.
abbrev pub new_creator : String → SortMethod → Bool → InvertTableCreator
new_creator dir sort_method is_persistent = record {
  dir = dir;
  persistent = is_persistent;
  sort_method = sort_method;
  triple_vec = [];
  dup_filter = [];
}

abbrev pub clear : InvertTableCreator → InvertTableCreator
clear c = record c { triple_vec = []; dup_filter = [] }

-- `addTriple` with two weights.
unfoldable pub add_triple : StPidKidInfo2 → InvertTableCreator → InvertTableCreator
add_triple info c = if has_key info.pid info.kid c.dup_filter then c else record c {
  triple_vec = c.triple_vec ++ info ∷ [];
  dup_filter = (info.pid, info.kid) ∷ c.dup_filter;
}

-- A caller that adds the triples of a list.
unfoldable pub add_all : List StPidKidInfo2 → InvertTableCreator → InvertTableCreator
add_all [] c = c
add_all (info ∷ infos) c = add_all infos (add_triple info c)

module _ (less : StPidKidInfo2 → StPidKidInfo2 → Bool) where
  unfoldable pub insert : StPidKidInfo2 → List StPidKidInfo2 → List StPidKidInfo2
  insert x [] = x ∷ []
  insert x (y ∷ ys) = let rest = insert x ys in if less y x then y ∷ rest else x ∷ y ∷ ys

  unfoldable pub sort : List StPidKidInfo2 → List StPidKidInfo2
  sort [] = []
  sort (x ∷ xs) = insert x (sort xs)

-- The comparator of a method.
unfoldable pub less_of : SortMethod → StPidKidInfo2 → StPidKidInfo2 → Bool
less_of SortMethod.by_index = less_by_index
less_of SortMethod.by_id = less_by_id
less_of SortMethod.by_weight = less_by_weight

unfoldable pub create :
    {R : Type 0}
    → (List StPidKidInfo2 → String → Bool → R)
    → InvertTableCreator
    → R × InvertTableCreator
create make c =
    let sorted = sort (less_of c.sort_method) c.triple_vec in
    (make sorted c.dir c.persistent, record c { triple_vec = sorted })
