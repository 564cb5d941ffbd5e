-- ===== src/Exp/Lines.antt =====
-- What `load` makes of the lines of sections.
use learning_cpp.Prelude.{
  ◌≡◌, refl, ap, ◌∙◌, arith, true, false, ◌==◌, if◌then◌else◌, some, List, [], ◌∷◌, ◌++◌, Bytes,
  map, codes, equal, append_assoc, All, Option-cases, Bool-cases, inl, inr,
}
use learning_cpp.Exp.{
  Flags, CLibrary, Exp, get_type, insert_new, node_as, add_flag, cut, flag_line, trim, end_section,
  header_line, load_line, load_lines, between, is_empty,
}
use learning_cpp.Exp.Sections.{Entry, Section, entry_line, lines_of, all_lines, IsEntry, IsSection}
use learning_cpp.Exp.Maps.{added}

cut-append :
    (flag value : Bytes)
    → All (λ x. (x == 61) ≡ false) flag
    → cut (flag ++ (61 ∷ value)) ≡ some (flag, value)
unfolding cut
cut-append [] value h = refl
cut-append (x ∷ flag) value h = ground (arith, cut-append flag value)

between-append : (name : Bytes) → between (name ++ (93 ∷ [])) ≡ some name
between-append [] = refl
between-append (x ∷ []) = refl
between-append (x ∷ y ∷ name) = ground (arith, between-append (y ∷ name))

flag_line-entry :
    (c : CLibrary) (e : Entry) (x : Exp)
    → IsEntry c e
    → flag_line c (entry_line e) x ≡ add_flag e.0 (node_as c e.1 (get_type e.0)) x
unfolding flag_line
flag_line-entry c e x h =
    rw (flag_line, cut-append e.0 e.1 h.no_equals, h.trim_flag, h.trim_value) refl

load_line-entry :
    (c : CLibrary) (e : Entry) (x : Exp)
    → IsEntry c e
    → load_line c (entry_line e) x ≡ flag_line c (entry_line e) x
unfolding load_line
load_line-entry c ([], value) x h = refl
load_line-entry c (y ∷ flag, value) x h = ground (arith, h.starts)

load_line-header :
    (c : CLibrary) (name : Bytes) (x : Exp)
    → load_line c (91 ∷ (name ++ (93 ∷ []))) x ≡ header_line name x
unfolding load_line
load_line-header c name x = rw (load_line, between-append name) refl

abbrev with_flags : Exp → Flags → Exp
with_flags x m = record x { flag2value = m }

load_lines-entries :
    (c : CLibrary) (entries : List Entry) (more : List Bytes) (x : Exp)
    → All (IsEntry c) entries
    → load_lines c (map entry_line entries ++ more) x
      ≡ load_lines c more (with_flags x (added c entries x.flag2value))
unfolding load_lines added
load_lines-entries c [] more x h = refl
load_lines-entries c ((f, v) ∷ entries) more x h =
    ap (λ l. load_lines c (map entry_line entries ++ more) (load_line c l x)) h.0.lower
    ∙ ap (load_lines c (map entry_line entries ++ more))
        (load_line-entry c (f, v) x h.0 ∙ flag_line-entry c (f, v) x h.0)
    ∙ elim (Option-cases (node_as c v (get_type f))) [
      | inl e ↦ rw e (load_lines-entries c entries more x h.1)
      | inr (n, e) ↦
          rw e (load_lines-entries c entries more (with_flags x (insert_new f n x.flag2value)) h.1)
    ]

-- The sections so far, with the one that is being read.
abbrev pub closed : Exp → List (Bytes × Flags)
closed x = if is_empty x.posid then x.m_conf else insert_new x.posid x.flag2value x.m_conf

abbrev pub opened : CLibrary → Section → Exp → Exp
opened c s x = record {
  m_conf = closed x;
  m_default = x.m_default;
  posid = s.name;
  flag2value = added c s.entries [];
}

unfoldable pub after : CLibrary → List Section → Exp → Exp
after c [] x = x
after c (s ∷ sections) x = after c sections (opened c s x)

-- Flags are only there in a section, and it is not the one of the defaults.
pub record IsReady (x : Exp) : Type 0 where
  pub not_default : equal x.posid (codes "default") ≡ false
  pub no_flags : is_empty x.posid ≡ true → x.flag2value ≡ []

header_line-ready :
    (name : Bytes) (x : Exp)
    → IsReady x
    → trim name ≡ name
    → header_line name x
      ≡ record { m_conf = closed x; m_default = x.m_default; posid = name; flag2value = [] }
unfolding header_line end_section
header_line-ready name x h e = elim (Bool-cases (is_empty x.posid)) [
  | inl f ↦ rw (header_line, h.not_default, end_section, f, e, h.no_flags f) refl
  | inr f ↦ rw (header_line, h.not_default, end_section, f, e) refl
]

pub load_lines-section :
    (c : CLibrary) (s : Section) (more : List Bytes) (x : Exp)
    → IsReady x
    → IsSection c s
    → load_lines c (lines_of s ++ more) x ≡ load_lines c more (opened c s x)
unfolding load_lines
load_lines-section c s more x ready h =
    ap (λ l. load_lines c (map entry_line s.entries ++ more) (load_line c l x)) h.lower
    ∙ ap (load_lines c (map entry_line s.entries ++ more))
        (load_line-header c s.name x ∙ header_line-ready s.name x ready h.trim_name)
    ∙ load_lines-entries c s.entries more _ h.all_entries

abbrev pub AllSections : CLibrary → List Section → Type 0
AllSections c = All (λ s. IsSection c s × (equal s.name (codes "default") ≡ false))

IsReady-opened :
    (c : CLibrary) (s : Section) (x : Exp)
    → IsSection c s
    → equal s.name (codes "default") ≡ false
    → IsReady (opened c s x)
IsReady-opened c s x h k = record { not_default = k; no_flags = λ e. absurd (cc (e, h.not_empty)) }

pub load_lines-all :
    (c : CLibrary) (sections : List Section) (more : List Bytes) (x : Exp)
    → IsReady x
    → AllSections c sections
    → (load_lines c (all_lines sections ++ more) x ≡ load_lines c more (after c sections x))
      × IsReady (after c sections x)
unfolding after
load_lines-all c [] more x ready h = (refl, ready)
load_lines-all c (s ∷ sections) more x ready h =
    let (rest, end) =
      load_lines-all c sections more (opened c s x) (IsReady-opened c s x h.0.0 h.0.1) h.1 in
    (
      ap (λ l. load_lines c l x) (append_assoc (lines_of s) (all_lines sections) more)
          ∙ load_lines-section c s (all_lines sections ++ more) x ready h.0.0
          ∙ rest,
      end,
    )
