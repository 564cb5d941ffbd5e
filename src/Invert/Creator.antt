-- ===== src/Invert/Creator.antt =====
-- `InvertCreator` of invert/invertCreator.cpp: triples are collected without repetition and handed
-- to a table. The set of pairs is a list that is asked for membership only.
use Prim.Native.String.{String}
use learning_cpp.Prelude.{
  ℕ, suc, ◌+◌, ◌≤◌, ℤ, ◌==ℤ◌, ◌≡◌, refl, sym, ap, ◌∙◌, arith, Bool, true, false, ◌&&◌, ◌||◌, inl,
  inr, Bool-cases, Option, none, some, if◌then◌else◌, List, [], ◌∷◌, ◌++◌, append-nil, append_assoc,
}
use learning_cpp.Invert.Node.{PidKidInfo}
use learning_cpp.Invert.Sort.{sort}
use learning_cpp.Invert.Disk.{Disk}
use learning_cpp.Invert.Lookup.{postings}
use learning_cpp.Invert.Answers.{get-create}
use learning_cpp.Invert.Table.{InvertTable, index_path, invert_path, get_invert_vec}
use learning_cpp.Invert.Table as Table

pub record InvertCreator : Type 0 where
  pub is_persistent : Bool
  pub path : String
  pub triple_vec : List PidKidInfo
  pub filter_set : List (ℤ × ℤ)

-- The constructor; the table is passed to `create` below.
abbrev pub new_creator : String → Bool → InvertCreator
new_creator dir is_persistent = record {
  is_persistent = is_persistent;
  path = dir;
  triple_vec = [];
  filter_set = [];
}

-- `mFilterSet.find(key) != mFilterSet.end()`.
unfoldable pub has_key : ℤ → ℤ → List (ℤ × ℤ) → Bool
has_key p k [] = false
has_key p k ((q, j) ∷ s) = (q ==ℤ p && j ==ℤ k) || has_key p k s

unfoldable pub add_triple : PidKidInfo → InvertCreator → InvertCreator
add_triple info c = if has_key info.pid info.kid c.filter_set then c else record c {
  filter_set = (info.pid, info.kid) ∷ c.filter_set;
  triple_vec = c.triple_vec ++ info ∷ [];
}

-- A caller that adds the triples of a list.
unfoldable pub add_all : List PidKidInfo → InvertCreator → InvertCreator
add_all [] c = c
add_all (info ∷ infos) c = add_all infos (add_triple info c)

-- `create()`.
unfoldable pub create :
    InvertCreator → InvertTable → Disk → Option (InvertTable × Disk × InvertCreator)
create c t d = elim (Table.create t d c.triple_vec c.path c.is_persistent) [
  | none ↦ none
  | some (t', d', sorted) ↦ some (t', d', record c { triple_vec = sorted })
]

abbrev matches : ℤ → ℤ → PidKidInfo → Bool
matches p k info = info.pid ==ℤ p && info.kid ==ℤ k

-- The first triple of a product under an index.
unfoldable pub triple_of : ℤ → ℤ → List PidKidInfo → Option PidKidInfo
triple_of p k [] = none
triple_of p k (x ∷ l) = if matches p k x then some x else triple_of p k l

unfoldable pub count_key : ℤ → ℤ → List PidKidInfo → ℕ
count_key p k [] = 0
count_key p k (x ∷ l) = elim (matches p k x) [
  | true ↦ suc (count_key p k l)
  | false ↦ count_key p k l
]

abbrev or_else : Option PidKidInfo → Option PidKidInfo → Option PidKidInfo
or_else none o = o
or_else (some x) o = some x

module _ (p k : ℤ) where
  triple_of-append :
      (xs ys : List PidKidInfo)
      → triple_of p k (xs ++ ys) ≡ or_else (triple_of p k xs) (triple_of p k ys)
  unfolding triple_of
  triple_of-append [] ys = refl
  triple_of-append (x ∷ xs) ys = ground (arith, triple_of-append xs ys)

  count_key-append :
      (xs ys : List PidKidInfo) → count_key p k (xs ++ ys) ≡ count_key p k xs + count_key p k ys
  unfolding count_key
  count_key-append [] ys = omega arith
  count_key-append (x ∷ xs) ys = ground (arith, count_key-append xs ys)

-- The set holds the keys of the vector, and the vector holds each key once. At one key:
pub record KeyIsOnce (p k : ℤ) (c : InvertCreator) : Type 0 where
  pub once : count_key p k c.triple_vec ≤ 1
  pub known : has_key p k c.filter_set ≡ true → count_key p k c.triple_vec ≡ 1
  pub unknown :
      has_key p k c.filter_set ≡ false
      → (count_key p k c.triple_vec ≡ 0) × (triple_of p k c.triple_vec ≡ none)

abbrev pub IsOnce : InvertCreator → Type 0
IsOnce c = (p k : ℤ) → KeyIsOnce p k c

found_of_count :
    (p k : ℤ) (l : List PidKidInfo)
    → count_key p k l ≡ 1
    → (x : PidKidInfo) × (triple_of p k l ≡ some x)
unfolding count_key triple_of
found_of_count p k [] h = absurd (omega arith)
found_of_count p k (x ∷ l) h = elim (Bool-cases (matches p k x)) [
  | inl e ↦ (x, rw e)
  | inr e ↦ let (y, f) = found_of_count p k l (rw (e, count_key) at h) in (y, rw (e, f))
]

module _ (info : PidKidInfo) (p k : ℤ) (c : InvertCreator) where
  add_triple-KeyIsOnce : KeyIsOnce p k c → KeyIsOnce p k (add_triple info c)
  unfolding add_triple has_key count_key triple_of
  add_triple-KeyIsOnce h = ground (
    arith,
    count_key-append p k c.triple_vec (info ∷ []),
    triple_of-append p k c.triple_vec (info ∷ []),
  )

  triple_of-add_triple :
      KeyIsOnce p k c
      → triple_of p k (add_triple info c).triple_vec ≡ triple_of p k (c.triple_vec ++ info ∷ [])
  unfolding add_triple has_key triple_of
  triple_of-add_triple h =
      ground (arith, triple_of-append p k c.triple_vec (info ∷ []), found_of_count p k c.triple_vec)

add_triple-IsOnce : (info : PidKidInfo) (c : InvertCreator) → IsOnce c → IsOnce (add_triple info c)
add_triple-IsOnce info c h p k = add_triple-KeyIsOnce info p k c (h p k)

pub add_all-IsOnce : (l : List PidKidInfo) (c : InvertCreator) → IsOnce c → IsOnce (add_all l c)
unfolding add_all
add_all-IsOnce [] c h = h
add_all-IsOnce (x ∷ l) c h = add_all-IsOnce l (add_triple x c) (add_triple-IsOnce x c h)

pub new_creator-IsOnce : (dir : String) (persistent : Bool) → IsOnce (new_creator dir persistent)
unfolding has_key count_key triple_of
new_creator-IsOnce dir persistent p k = record {
  once = omega arith;
  known = λ e. cc;
  unknown = λ e. (refl, refl);
}

pub triple_of-add_all :
    (l : List PidKidInfo) (c : InvertCreator) (p k : ℤ)
    → IsOnce c
    → triple_of p k (add_all l c).triple_vec ≡ triple_of p k (c.triple_vec ++ l)
unfolding add_all
triple_of-add_all [] c p k h = rw append-nil
triple_of-add_all (x ∷ l) c p k h =
    triple_of-add_all l (add_triple x c) p k (add_triple-IsOnce x c h)
    ∙ triple_of-append p k (add_triple x c).triple_vec l
    ∙ ap (λ o. or_else o (triple_of p k l)) (triple_of-add_triple x p k c (h p k))
    ∙ sym (triple_of-append p k (c.triple_vec ++ x ∷ []) l)
    ∙ ap (triple_of p k) (append_assoc c.triple_vec (x ∷ []) l)

path-add_triple : (x : PidKidInfo) (c : InvertCreator) → (add_triple x c).path ≡ c.path
unfolding add_triple
path-add_triple x c = ground arith

path-add_all : (l : List PidKidInfo) (c : InvertCreator) → (add_all l c).path ≡ c.path
unfolding add_all
path-add_all [] c = refl
path-add_all (x ∷ l) c = path-add_all l (add_triple x c) ∙ path-add_triple x c

-- A new creator that is given the triples of `l` and then creates a table whose vector is empty, in
-- a directory that can be written: the collected vector holds each product of an index at most once,
-- with the weight that came first in `l`, and the table returns for every index exactly the collected
-- products, sorted.
pub create-add_all :
    (l : List PidKidInfo) (dir : String) (persistent : Bool) (t : InvertTable) (d : Disk)
    → d.writable (index_path dir) ≡ true
    → d.writable (invert_path dir) ≡ true
    → t.invert_vec ≡ []
    → let c = add_all l (new_creator dir persistent) in
      ((p k : ℤ)
        → (count_key p k c.triple_vec ≤ 1) × (triple_of p k c.triple_vec ≡ triple_of p k l))
      × ((t' : InvertTable) × (d' : Disk) × (c' : InvertCreator) × (create c t d
            ≡ some (t', d', c'))
          × ((p : ℤ) → get_invert_vec t' d' p ≡ some (postings p c.triple_vec)))
unfolding create
create-add_all l dir persistent t d wi wv e =
    let start = new_creator dir persistent in
    let c = add_all l start in
    let once = new_creator-IsOnce dir persistent in
    let at_dir : c.path ≡ dir = path-add_all l start in
    let (t', d', made, answers) =
      get-create t d c.triple_vec c.path c.is_persistent (rw at_dir wi) (rw at_dir wv) e in
    (
      λ p k. ((add_all-IsOnce l start once p k).once, triple_of-add_all l start p k once),
      (t', d', record c { triple_vec = sort c.triple_vec }, rw (made, create), answers),
    )
