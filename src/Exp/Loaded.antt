-- ===== src/Exp/Loaded.antt =====
-- What is found in settings that were read from a file of sections, with the defaults at the end.
use learning_cpp.Prelude.{
  ◌≡◌, refl, ap, ◌∙◌, true, false, if◌then◌else◌, Option, none, some, List, [], ◌∷◌, ◌++◌, Bytes,
  map, codes, equal, Option-cases, Bool-cases, inl, inr,
}
use learning_cpp.Exp.{
  FlagType, Flags, CLibrary, Exp, get_type, lookup, insert_new, end_section, load_lines, load,
  new_exp, get_default, get_exp_node, judge_exp_node, is_empty,
}
use learning_cpp.Exp.Getters.{
  int_of, get_int_value, bool_of, get_bool_value, float_of, get_float_value, string_of,
  get_string_value,
}
use learning_cpp.Exp.Typed.{empty_exp, as_type, judge_exp_node-load}
use learning_cpp.Exp.Sections.{
  Entry, Section, lines_of, all_lines, found, section_of, or_exit, answer, IsSection,
}
use learning_cpp.Exp.Maps.{
  added, or_else, or_none, equal_refl, lookup-insert_new, or_else_assoc, lookup-added,
}
use learning_cpp.Exp.Lines.{closed, opened, after, load_lines-section, AllSections, load_lines-all}

abbrev flags_of : CLibrary → Option (List Entry) → Option Flags
flags_of c none = none
flags_of c (some entries) = some (added c entries [])

closed-opened :
    (c : CLibrary) (s : Section) (x : Exp)
    → is_empty s.name ≡ false
    → closed (opened c s x) ≡ insert_new s.name (added c s.entries []) (closed x)
closed-opened c s x h = rw h refl

flags_of-section_of :
    (c : CLibrary) (posid : Bytes) (s : Section) (sections : List Section)
    → or_else
        (if equal s.name posid then some (added c s.entries []) else none)
        (flags_of c (section_of posid sections))
      ≡ flags_of c (section_of posid (s ∷ sections))
unfolding section_of
flags_of-section_of c posid s sections = elim (Bool-cases (equal s.name posid)) [
  | inl g ↦ rw (section_of, g) refl
  | inr g ↦ rw (section_of, g) refl
]

no_section : (c : CLibrary) (posid : Bytes) → none ≡ flags_of c (section_of posid [])
unfolding section_of
no_section c posid = refl

lookup-after :
    (c : CLibrary) (posid : Bytes) (sections : List Section) (x : Exp)
    → AllSections c sections
    → lookup posid (closed (after c sections x))
      ≡ or_else (lookup posid (closed x)) (flags_of c (section_of posid sections))
unfolding after
lookup-after c posid [] x h =
    or_none (lookup posid (closed x)) ∙ ap (or_else (lookup posid (closed x))) (no_section c posid)
lookup-after c posid (s ∷ sections) x h =
    lookup-after c posid sections (opened c s x) h.1
    ∙ ap (λ m. or_else (lookup posid m) (flags_of c (section_of posid sections)))
        (closed-opened c s x h.0.0.not_empty)
    ∙ ap (λ o. or_else o (flags_of c (section_of posid sections)))
        (lookup-insert_new posid s.name (added c s.entries []) (closed x))
    ∙ or_else_assoc (lookup posid (closed x)) _ _
    ∙ ap (or_else (lookup posid (closed x))) (flags_of-section_of c posid s sections)

-- The file: the sections, and the defaults.
abbrev pub file_of : List Section → List Entry → List Bytes
file_of sections defaults =
    all_lines sections ++ (lines_of (record { name = codes "default"; entries = defaults }) ++ [])

end_section-default :
    (x : Exp)
    → equal x.posid (codes "default") ≡ true
    → end_section x
      ≡ record { m_conf = x.m_conf; m_default = x.flag2value; posid = []; flag2value = [] }
unfolding end_section
end_section-default x h = rw (end_section, h) refl

no_name : equal [] (codes "default") ≡ false
unfolding equal
no_name = refl

no_lines : (c : CLibrary) (x : Exp) → load_lines c [] x ≡ x
unfolding load_lines
no_lines c x = refl

lookup-nil {ℓ} : {A : Type ℓ} (k : Bytes) (o : Option A) → or_else (lookup k []) o ≡ o
unfolding lookup
lookup-nil k o = refl

get_default-lookup :
    (flag : Bytes) (x : Exp) → get_default flag x ≡ or_exit (lookup flag x.m_default)
unfolding get_default
get_default-lookup flag x = elim (Option-cases (lookup flag x.m_default)) [
  | inl e ↦ rw (get_default, e) refl
  | inr (n, e) ↦ rw (get_default, e) refl
]

module _ (c : CLibrary) (sections : List Section) (defaults : List Entry) where
  new_exp-file_of :
      AllSections c sections
      → IsSection c (record { name = codes "default"; entries = defaults })
      → new_exp c (some (file_of sections defaults)) ≡ record {
        m_conf = closed (after c sections empty_exp);
        m_default = added c defaults [];
        posid = [];
        flag2value = [];
      }
  unfolding new_exp load
  new_exp-file_of h k =
      let (all, ready) =
        load_lines-all c sections
          (lines_of (record { name = codes "default"; entries = defaults }) ++ []) empty_exp
          (record { not_default = no_name; no_flags = λ e. refl }) h in
      ap end_section (
        all
        ∙ load_lines-section c (record { name = codes "default"; entries = defaults }) []
            (after c sections empty_exp) ready k
        ∙ no_lines c _)
      ∙ end_section-default _ (equal_refl (codes "default"))

  in_conf :
      (posid : Bytes)
      → AllSections c sections
      → lookup posid (closed (after c sections empty_exp)) ≡ flags_of c (section_of posid sections)
  in_conf posid h = lookup-after c posid sections empty_exp h ∙ lookup-nil posid _

  in_added :
      (flag : Bytes) (entries : List Entry)
      → lookup flag (added c entries []) ≡ found c flag entries
  in_added flag entries = lookup-added c flag entries [] ∙ lookup-nil flag _

  get_exp_node-answer :
      (posid flag : Bytes)
      → AllSections c sections
      → IsSection c (record { name = codes "default"; entries = defaults })
      → get_exp_node posid flag (new_exp c (some (file_of sections defaults)))
        ≡ answer c sections defaults posid flag
  unfolding get_exp_node answer
  get_exp_node-answer posid flag h k =
      ap (get_exp_node posid flag) (new_exp-file_of h k)
      ∙ elim (Option-cases (section_of posid sections)) [
        | inl e ↦
            rw (get_exp_node, in_conf posid h, answer, e)
              (get_default-lookup flag _ ∙ ap or_exit (in_added flag defaults))
        | inr (entries, e) ↦ elim (Option-cases (found c flag entries)) [
          | inl f ↦
              rw (get_exp_node, in_conf posid h, answer, e, in_added flag entries, f)
                (get_default-lookup flag _ ∙ ap or_exit (in_added flag defaults))
          | inr (n, f) ↦
              rw (get_exp_node, in_conf posid h, answer, e, in_added flag entries, f) refl
        ]
      ]

judge_new_exp :
    (c : CLibrary) (file : Option (List Bytes)) (posid flag : Bytes) (wanted : FlagType)
    → judge_exp_node c posid flag wanted (new_exp c file)
      ≡ as_type
          (get_type (map c.to_lower flag))
          wanted
          (get_exp_node (map c.to_lower posid) (map c.to_lower flag) (new_exp c file))
unfolding new_exp
judge_new_exp = judge_exp_node-load

-- The settings that are read from a file of sections with other names than `default`, each with a name
-- that is not empty, and then the section `default`, of lines that are not in upper case, of which a flag
-- has no '=' and does not begin like a comment or a header, and all texts are what `trim` leaves of
-- them. When the first section of the position has a good line of the flag, every getter's result is
-- undefined, since it reads a node that is destroyed. When it has none, or there is no such section,
-- `getIntValue` and the getters of the other types give the value of the first good line of the flag in
-- the defaults, or -1 if there is none, or -2 if the flag's name asks for another type; but a text is
-- never there.
pub get_value-file_of :
    (c : CLibrary) (sections : List Section) (defaults : List Entry) (posid flag : Bytes)
    → AllSections c sections
    → IsSection c (record { name = codes "default"; entries = defaults })
    → let e = new_exp c (some (file_of sections defaults)) in
      let lower = map c.to_lower flag in
      let r = answer c sections defaults (map c.to_lower posid) lower in
      (get_bool_value c posid flag e ≡ bool_of (as_type (get_type lower) FlagType.bool_type r))
      × (get_int_value c posid flag e ≡ int_of (as_type (get_type lower) FlagType.int_type r))
      × (get_float_value c posid flag e ≡ float_of (as_type (get_type lower) FlagType.float_type r))
      × (get_string_value c posid flag e
          ≡ string_of (as_type (get_type lower) FlagType.string_type r))
unfolding get_bool_value get_int_value get_float_value get_string_value
get_value-file_of c sections defaults posid flag h k = (
  ap bool_of (judged FlagType.bool_type),
  ap int_of (judged FlagType.int_type),
  ap float_of (judged FlagType.float_type),
  ap string_of (judged FlagType.string_type),
)
  where
    judged :
        (wanted : FlagType)
        → judge_exp_node c posid flag wanted (new_exp c (some (file_of sections defaults)))
          ≡ as_type
              (get_type (map c.to_lower flag))
              wanted
              (answer c sections defaults (map c.to_lower posid) (map c.to_lower flag))
    judged wanted =
        judge_new_exp c (some (file_of sections defaults)) posid flag wanted
        ∙ ap (as_type (get_type (map c.to_lower flag)) wanted) (
            get_exp_node-answer c sections defaults (map c.to_lower posid) (map c.to_lower flag) h
              k)
