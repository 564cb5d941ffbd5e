-- ===== src/Exp/Maps.antt =====
-- The maps of flags that the lines of a section fill.
use learning_cpp.Prelude.{
  ◌≡◌, refl, ap, ◌∙◌, arith, true, if◌then◌else◌, Option, none, some, List, [], ◌∷◌, Bytes, equal,
  equal_iff, Option-cases, Bool-cases, inl, inr,
}
use learning_cpp.Exp.{ExpNode, Flags, CLibrary, get_type, lookup, insert_new, node_as}
use learning_cpp.Exp.Sections.{Entry, found}

-- The map of the flags after some lines.
unfoldable pub added : CLibrary → List Entry → Flags → Flags
added c [] m = m
added c ((f, v) ∷ entries) m =
    added c entries (elim (node_as c v (get_type f)) [ none ↦ m | some n ↦ insert_new f n m ])

abbrev pub or_else {ℓ} : {A : Type ℓ} → Option A → Option A → Option A
or_else none b = b
or_else (some a) b = some a

pub or_none {ℓ} : {A : Type ℓ} (o : Option A) → o ≡ or_else o none
or_none none = refl
or_none (some a) = refl

pub equal_refl : (k : Bytes) → equal k k ≡ true
equal_refl k = (equal_iff k k).1 refl

pub lookup-insert_new {ℓ} :
    {A : Type ℓ} (k key : Bytes) (a : A) (m : List (Bytes × A))
    → lookup k (insert_new key a m) ≡ or_else (lookup k m) (if equal key k then some a else none)
unfolding insert_new lookup
lookup-insert_new k key a m = elim (Bool-cases (equal key k)) [
  | inl e ↦
      let same : key ≡ k = ground (arith, equal_iff key k) in
      rw (same, equal_refl k)
        (elim (Option-cases (lookup k m)) [
          | inl f ↦ rw (insert_new, f, lookup, equal_refl k) refl
          | inr (b, f) ↦ rw (insert_new, f, f) refl
        ])
  | inr e ↦ elim (Option-cases (lookup key m)) [
    | inl f ↦ rw (insert_new, f, lookup, e) (or_none (lookup k m))
    | inr (b, f) ↦ rw (insert_new, f, e) (or_none (lookup k m))
  ]
]

found_nothing : (c : CLibrary) (flag : Bytes) → none ≡ found c flag []
unfolding found
found_nothing c flag = refl

found_without :
    (c : CLibrary) (flag f v : Bytes) (entries : List Entry)
    → node_as c v (get_type f) ≡ none
    → found c flag entries ≡ found c flag ((f, v) ∷ entries)
unfolding found
found_without c flag f v entries e = elim (Bool-cases (equal f flag)) [
  | inl g ↦ rw (found, g, e) refl
  | inr g ↦ rw (found, g) refl
]

found_with :
    (c : CLibrary) (flag f v : Bytes) (entries : List Entry) (n : ExpNode)
    → node_as c v (get_type f) ≡ some n
    → or_else (if equal f flag then some n else none) (found c flag entries)
      ≡ found c flag ((f, v) ∷ entries)
unfolding found
found_with c flag f v entries n e = elim (Bool-cases (equal f flag)) [
  | inl g ↦ rw (found, g, e) refl
  | inr g ↦ rw (found, g) refl
]

pub or_else_assoc {ℓ} :
    {A : Type ℓ} (a b d : Option A) → or_else (or_else a b) d ≡ or_else a (or_else b d)
or_else_assoc none b d = refl
or_else_assoc (some x) b d = refl

pub lookup-added :
    (c : CLibrary) (flag : Bytes) (entries : List Entry) (m : Flags)
    → lookup flag (added c entries m) ≡ or_else (lookup flag m) (found c flag entries)
unfolding added
lookup-added c flag [] m =
    or_none (lookup flag m) ∙ ap (or_else (lookup flag m)) (found_nothing c flag)
lookup-added c flag ((f, v) ∷ entries) m = elim (Option-cases (node_as c v (get_type f))) [
  | inl e ↦
      rw (added, e)
        (lookup-added c flag entries m
          ∙ ap (or_else (lookup flag m)) (found_without c flag f v entries e))
  | inr (n, e) ↦
      rw (added, e)
        (lookup-added c flag entries (insert_new f n m)
          ∙ ap (λ o. or_else o (found c flag entries)) (lookup-insert_new flag f n m)
          ∙ or_else_assoc (lookup flag m) _ _
          ∙ ap (or_else (lookup flag m)) (found_with c flag f v entries n e))
]
