-- ===== src/Invert2/Node.antt =====
-- The structs of invert_table/invert_table.h and its comparators.
use learning_cpp.Prelude.{
  ℕ, ℤ, magnitude, add_nat, wrap_int, ltb_ℤ, ◌==ℤ◌, ◌*◌, Bool, not, if◌then◌else◌, List,
}

-- `ST_PidKidInfo2`: a product under an index, with two weights.
pub record StPidKidInfo2 : Type 0 where
  pub pid : ℤ
  pub kid : ℤ
  pub weight : ℤ
  pub weight2 : ℤ

pub record InvertNode2 : Type 0 where
  pub id : ℤ
  pub weight : ℤ
  pub weight2 : ℤ

-- `InvertNode2::copy`.
abbrev pub copy : StPidKidInfo2 → InvertNode2
copy other = record { id = other.kid; weight = other.weight; weight2 = other.weight2 }

pub record IndexNode : Type 0 where
  pub id : ℤ
  pub offset : ℕ
  pub count : ℕ
  pub total_weight : ℤ

-- `CmpSTNodeByIndex`.
abbrev pub less_by_index : StPidKidInfo2 → StPidKidInfo2 → Bool
less_by_index i j = ltb_ℤ i.pid j.pid

-- `CmpSTNodeByID`.
abbrev pub less_by_id : StPidKidInfo2 → StPidKidInfo2 → Bool
less_by_id i j = if not (i.pid ==ℤ j.pid) then ltb_ℤ i.pid j.pid else ltb_ℤ i.kid j.kid

-- `CmpSTNodeByWeight`: the heavier first.
abbrev pub less_by_weight : StPidKidInfo2 → StPidKidInfo2 → Bool
less_by_weight i j =
    if not (i.pid ==ℤ j.pid)
    then ltb_ℤ i.pid j.pid
    else if not (i.weight ==ℤ j.weight)
    then ltb_ℤ j.weight i.weight
    else ltb_ℤ i.kid j.kid

-- `total += weight * weight`, on ints.
unfoldable pub add_square : ℤ → ℤ → ℤ
add_square total weight = wrap_int (add_nat total (magnitude weight * magnitude weight))

-- What `getPostList` says. It returns false for the first two: there is no such index, or the file
-- ended before the given count of nodes. `posted` has the count and the nodes, from `start` on or in
-- the vector of the results.
pub data PostList : Type 0 where
  missing : PostList
  cut_off : ℕ → PostList
  posted : ℕ → List InvertNode2 → PostList
