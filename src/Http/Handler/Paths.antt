-- ===== src/Http/Handler/Paths.antt =====
-- The paths that the handler lets through.
use learning_cpp.Prelude.{
  ℕ, inl, inr, Bool-cases, ◌≡◌, ◌≢◌, refl, arith, true, false, [], ◌∷◌, ◌++◌, Bytes, codes, ◌==◌,
}
use learning_cpp.Http.Handler.{has_dot_dot, not_absolute, with_index, ends_in_slash}

-- An absolute path in which no two dots follow one another.
pub record IsSafe (path : Bytes) : Type 0 where
  pub tail : Bytes
  pub absolute : path ≡ b'/' ∷ tail
  pub no_dot_dot : (a b : Bytes) → path ≢ a ++ (b'.' ∷ b'.' ∷ b)

has_dot_dot_at : (a b : Bytes) → has_dot_dot (a ++ (b'.' ∷ b'.' ∷ b)) ≡ true
unfolding has_dot_dot
has_dot_dot_at [] b = refl
has_dot_dot_at (c ∷ a) b = ground (arith, has_dot_dot_at a b)

pub IsSafe_lem : (path : Bytes) → not_absolute path ≡ false → has_dot_dot path ≡ false → IsSafe path
IsSafe_lem [] h k = cc
IsSafe_lem (c ∷ cs) h k = record {
  tail = cs;
  absolute = ground arith;
  no_dot_dot = λ a b e. cc (has_dot_dot_at a b, rw e at k);
}

has_dot_dot-append :
    (p : Bytes) (i : ℕ) (q : Bytes)
    → has_dot_dot p ≡ false
    → (i == b'.') ≡ false
    → has_dot_dot (i ∷ q) ≡ false
    → has_dot_dot (p ++ (i ∷ q)) ≡ false
unfolding has_dot_dot
has_dot_dot-append [] i q h k l = l
has_dot_dot-append (c ∷ []) i q h k l = ground arith
has_dot_dot-append (c ∷ d ∷ p) i q h k l = ground (arith, has_dot_dot-append (d ∷ p) i q)

not_absolute-append : (p q : Bytes) → not_absolute p ≡ false → not_absolute (p ++ q) ≡ false
not_absolute-append [] q h = cc
not_absolute-append (c ∷ p) q h = h

IsSafe-append_index :
    (path : Bytes)
    → not_absolute path ≡ false
    → has_dot_dot path ≡ false
    → IsSafe (path ++ codes "index.html")
unfolding has_dot_dot
IsSafe-append_index path h k =
    IsSafe_lem (path ++ codes "index.html") (not_absolute-append path _ h)
      (has_dot_dot-append path b'i' (codes "ndex.html") k refl refl)

pub with_index-IsSafe :
    (path : Bytes) → not_absolute path ≡ false → has_dot_dot path ≡ false → IsSafe (with_index path)
with_index-IsSafe path h k = elim (Bool-cases (ends_in_slash path)) [
  | inl e ↦ rw e (IsSafe-append_index path h k)
  | inr e ↦ rw e (IsSafe_lem path h k)
]
