-- ===== src/Exp/Typed.antt =====
-- Every stored node has the type that its flag asks for.
use learning_cpp.Prelude.{
  ◌≡◌, refl, arith, ◌==◌, if◌then◌else◌, Option, none, some, List, [], ◌∷◌, Bytes, map, codes,
  equal, equal_iff, All, Option-cases, Bool-cases, inl, inr,
}
use mathlib.Core.Path.{subst}
use learning_cpp.Exp.{
  FlagType, ExpNode, Flags, CLibrary, Exp, Result, get_type, lookup, insert_new, bool_node, node_as,
  cut, flag_line, trim, end_section, header_line, load_line, load_lines, load, get_default,
  get_exp_node, same_type, checked, judge_exp_node, between, is_empty,
}

abbrev IsTyped : Flags → Type 0
IsTyped = All (λ (k, n). n.flagtype ≡ get_type k)

record Inv (e : Exp) : Type 0 where
  conf_typed : All (λ (k, flags). IsTyped flags) e.m_conf
  default_typed : IsTyped e.m_default
  flags_typed : IsTyped e.flag2value

insert_new-All {ℓ} :
    {A : Type ℓ} (P : Bytes × A → Type 0) (k : Bytes) (a : A) (m : List (Bytes × A))
    → P (k, a)
    → All P m
    → All P (insert_new k a m)
unfolding insert_new
insert_new-All P k a m h t = elim (Option-cases (lookup k m)) [
  | inl e ↦ rw (insert_new, e) (h, t)
  | inr (b, e) ↦ rw (insert_new, e) t
]

node_as-type :
    (c : CLibrary) (value : Bytes) (t : FlagType) (n : ExpNode)
    → node_as c value t ≡ some n
    → n.flagtype ≡ t
unfolding bool_node
node_as-type c value t n e = ground arith

Inv-flag_line : (c : CLibrary) (tmp : Bytes) (e : Exp) → Inv e → Inv (flag_line c tmp e)
unfolding flag_line
Inv-flag_line c tmp e h = elim (Option-cases (cut tmp)) [
  | inl f ↦ rw (flag_line, f) h
  | inr ((a, b), f) ↦ elim (Option-cases (node_as c (trim b) (get_type (trim a)))) [
    | inl g ↦ rw (flag_line, f, g) h
    | inr (n, g) ↦
        rw (flag_line, f, g)
          (record {
            conf_typed = h.conf_typed;
            default_typed = h.default_typed;
            flags_typed =
                insert_new-All _ (trim a) n e.flag2value
                  (node_as-type c (trim b) (get_type (trim a)) n g) h.flags_typed;
          })
  ]
]

Inv-end_section : (e : Exp) → Inv e → Inv (end_section e)
unfolding end_section
Inv-end_section e h = elim (Bool-cases (equal e.posid (codes "default"))) [
  | inl f ↦
      rw f (record { conf_typed = h.conf_typed; default_typed = h.flags_typed; flags_typed = tt })
  | inr f ↦ elim (Bool-cases (is_empty e.posid)) [
    | inl g ↦ rw (f, g) h
    | inr g ↦
        rw (f, g)
          (record {
            conf_typed = insert_new-All _ e.posid e.flag2value e.m_conf h.flags_typed h.conf_typed;
            default_typed = h.default_typed;
            flags_typed = tt;
          })
  ]
]

Inv-header_line : (name : Bytes) (e : Exp) → Inv e → Inv (header_line name e)
unfolding header_line
Inv-header_line name e h =
    let ended = Inv-end_section e h in
    elim (Bool-cases (equal e.posid (codes "default"))) [
      | inl f ↦ rw f ended
      | inr f ↦ rw f (record {
        conf_typed = ended.conf_typed;
        default_typed = ended.default_typed;
        flags_typed = ended.flags_typed;
      })
    ]

Inv-load_line : (c : CLibrary) (tmp : Bytes) (e : Exp) → Inv e → Inv (load_line c tmp e)
unfolding load_line
Inv-load_line c [] e h = h
Inv-load_line c (x ∷ xs) e h = elim (Bool-cases (x == 35)) [
  | inl f ↦ rw f h
  | inr f ↦ elim (Bool-cases (x == 91)) [
    | inl g ↦ elim (Option-cases (between xs)) [
      | inl b ↦ rw (f, g, b) (Inv-flag_line c (x ∷ xs) e h)
      | inr (name, b) ↦ rw (f, g, b) (Inv-header_line name e h)
    ]
    | inr g ↦ rw (f, g) (Inv-flag_line c (x ∷ xs) e h)
  ]
]

Inv-load_lines : (c : CLibrary) (lines : List Bytes) (e : Exp) → Inv e → Inv (load_lines c lines e)
unfolding load_lines
Inv-load_lines c [] e h = h
Inv-load_lines c (tmp ∷ lines) e h =
    Inv-load_lines c lines _ (Inv-load_line c (map c.to_lower tmp) e h)

abbrev pub empty_exp : Exp
empty_exp = record { m_conf = []; m_default = []; posid = []; flag2value = [] }

Inv-load : (c : CLibrary) (file : Option (List Bytes)) → Inv (load c file empty_exp)
unfolding load
Inv-load c none = record { conf_typed = tt; default_typed = tt; flags_typed = tt }
Inv-load c (some lines) = Inv-end_section _ (
    Inv-load_lines c lines empty_exp
      (record { conf_typed = tt; default_typed = tt; flags_typed = tt }))

lookup-All {ℓ} :
    {A : Type ℓ} (P : Bytes × A → Type 0) (k : Bytes) (a : A) (m : List (Bytes × A))
    → All P m
    → lookup k m ≡ some a
    → P (k, a)
unfolding lookup
lookup-All P k a [] h e = absurd (cc)
lookup-All P k a ((key, b) ∷ m) h e = elim (Bool-cases (equal key k)) [
  | inl f ↦ let same : (key, b) ≡ (k, a) = ground (arith, equal_iff key k) in subst P same h.0
  | inr f ↦ let there : lookup k m ≡ some a = ground arith in lookup-All P k a m h.1 there
]

-- A result whose node, if it has one, has the type of a flag.
abbrev HasType : FlagType → Result → Type 0
HasType t (Result.exits s) = Unit
HasType t Result.dangles = Unit
HasType t (Result.node n) = n.flagtype ≡ t

get_default-HasType :
    (flag : Bytes) (e : Exp) → Inv e → HasType (get_type flag) (get_default flag e)
unfolding get_default
get_default-HasType flag e h = elim (Option-cases (lookup flag e.m_default)) [
  | inl f ↦ rw (get_default, f) tt
  | inr (n, f) ↦ rw (get_default, f) (lookup-All _ flag n e.m_default h.default_typed f)
]

get_exp_node-HasType :
    (posid flag : Bytes) (e : Exp) → Inv e → HasType (get_type flag) (get_exp_node posid flag e)
unfolding get_exp_node
get_exp_node-HasType posid flag e h = elim (Option-cases (lookup posid e.m_conf)) [
  | inl f ↦ rw (get_exp_node, f) (get_default-HasType flag e h)
  | inr (flags, f) ↦ elim (Option-cases (lookup flag flags)) [
    | inl g ↦ rw (get_exp_node, f, g) (get_default-HasType flag e h)
    | inr (n, g) ↦ rw (get_exp_node, f, g) tt
  ]
]

-- The result, or an exit if a flag's type is not the one that is wanted.
abbrev pub as_type : FlagType → FlagType → Result → Result
as_type t wanted (Result.exits s) = Result.exits s
as_type t wanted Result.dangles = Result.dangles
as_type t wanted (Result.node n) = if same_type t wanted then Result.node n else Result.exits 254

checked_typed :
    (t wanted : FlagType) (r : Result) → HasType t r → checked t wanted r ≡ as_type t wanted r
unfolding same_type
checked_typed t wanted (Result.exits s) h = refl
checked_typed t wanted Result.dangles h = refl
checked_typed t wanted (Result.node n) h = ground arith

-- Whatever lines are loaded into new settings, a node that is found has the type of its flag: a getter
-- stops with the status -2 only if the flag's name does not ask for the getter's type.
pub judge_exp_node-load :
    (c : CLibrary) (file : Option (List Bytes)) (posid flag : Bytes) (wanted : FlagType)
    → judge_exp_node c posid flag wanted (load c file empty_exp)
      ≡ as_type
          (get_type (map c.to_lower flag))
          wanted
          (get_exp_node (map c.to_lower posid) (map c.to_lower flag) (load c file empty_exp))
unfolding judge_exp_node
judge_exp_node-load c file posid flag wanted =
    checked_typed _ wanted _
      (get_exp_node-HasType (map c.to_lower posid) (map c.to_lower flag) _ (Inv-load c file))
