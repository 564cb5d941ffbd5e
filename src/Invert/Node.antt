-- ===== src/Invert/Node.antt =====
-- The records of invert/invert.hpp and the order of `CmpPidKidInfoByPidWeight`.
use learning_cpp.Prelude.{ℕ, ℤ, ltb_ℤ, ◌==ℤ◌, Bool, not, if◌then◌else◌}

-- The triple of a product under an index.
pub record PidKidInfo : Type 0 where
  pub pid : ℤ
  pub kid : ℤ
  pub weight : ℤ

-- A product under its index.
pub record InvertNode : Type 0 where
  pub id : ℤ
  pub weight : ℤ

-- `InvertNode::copy`: the index is left behind.
abbrev pub copy : PidKidInfo → InvertNode
copy other = record { id = other.kid; weight = other.weight }

-- Where the products of an index stand in the vector.
pub record IndexNode : Type 0 where
  pub id : ℤ
  pub offset : ℕ
  pub count : ℕ

-- `CmpPidKidInfoByPidWeight`: by index, then the heavier first, then by product.
unfoldable pub less : PidKidInfo → PidKidInfo → Bool
less l r =
    if not (l.pid ==ℤ r.pid)
    then ltb_ℤ l.pid r.pid
    else if not (l.weight ==ℤ r.weight)
    then ltb_ℤ r.weight l.weight
    else ltb_ℤ l.kid r.kid
