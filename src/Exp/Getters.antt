-- ===== src/Exp/Getters.antt =====
-- The getters of exp_小流量控制/exp.cpp.
use learning_cpp.Prelude.{ℕ, ℤ, Bool, Bytes}
use learning_cpp.Exp.{FlagType, FlagValue, CLibrary, Exp, Result, judge_exp_node}

-- What a getter gives: the status of an `exit`, a value, or what is
-- undefined: a member that was not the one written, or a read through a dangling reference.
pub data Got {ℓ} (A : Type ℓ) : Type ℓ where
  stops : ℕ → Got A
  gives : A → Got A
  undefined : Got A

abbrev pub bool_of : Result → Got Bool
bool_of (Result.exits s) = Got.stops s
bool_of Result.dangles = Got.undefined
bool_of (Result.node n) = elim n.flagvalue [
  | FlagValue.bl b ↦ Got.gives b
  | FlagValue.it i ↦ Got.undefined
  | FlagValue.ft x ↦ Got.undefined
  | FlagValue.dangling ↦ Got.undefined
]

unfoldable pub get_bool_value : CLibrary → Bytes → Bytes → Exp → Got Bool
get_bool_value c posid flag e = bool_of (judge_exp_node c posid flag FlagType.bool_type e)

abbrev pub int_of : Result → Got ℤ
int_of (Result.exits s) = Got.stops s
int_of Result.dangles = Got.undefined
int_of (Result.node n) = elim n.flagvalue [
  | FlagValue.bl b ↦ Got.undefined
  | FlagValue.it i ↦ Got.gives i
  | FlagValue.ft x ↦ Got.undefined
  | FlagValue.dangling ↦ Got.undefined
]

unfoldable pub get_int_value : CLibrary → Bytes → Bytes → Exp → Got ℤ
get_int_value c posid flag e = int_of (judge_exp_node c posid flag FlagType.int_type e)

abbrev pub float_of : Result → Got ℕ
float_of (Result.exits s) = Got.stops s
float_of Result.dangles = Got.undefined
float_of (Result.node n) = elim n.flagvalue [
  | FlagValue.bl b ↦ Got.undefined
  | FlagValue.it i ↦ Got.undefined
  | FlagValue.ft x ↦ Got.gives x
  | FlagValue.dangling ↦ Got.undefined
]

unfoldable pub get_float_value : CLibrary → Bytes → Bytes → Exp → Got ℕ
get_float_value c posid flag e = float_of (judge_exp_node c posid flag FlagType.float_type e)

-- The text of `getStringValue` is gone, whatever the node is.
abbrev pub string_of : Result → Got Bytes
string_of (Result.exits s) = Got.stops s
string_of Result.dangles = Got.undefined
string_of (Result.node n) = Got.undefined

unfoldable pub get_string_value : CLibrary → Bytes → Bytes → Exp → Got Bytes
get_string_value c posid flag e = string_of (judge_exp_node c posid flag FlagType.string_type e)
