-- ===== src/Exp/Trim.antt =====
-- What `trim` leaves of a text.
use learning_cpp.Prelude.{ℕ, ◌≡◌, refl, arith, true, false, [], ◌∷◌, ◌++◌, Bytes}
use learning_cpp.Exp.{is_balnk, skip_front, all_balnk, drop_back, skip_back, trim}

skip_front-append :
    (a : Bytes) (c : ℕ) (cs : Bytes)
    → all_balnk a ≡ true
    → is_balnk c ≡ false
    → skip_front (a ++ (c ∷ cs)) ≡ c ∷ cs
unfolding skip_front
skip_front-append [] c [] h k = refl
skip_front-append [] c (d ∷ cs) h k = rw k refl
skip_front-append (x ∷ []) c cs h k = ground (arith, skip_front-append [] c cs refl k)
skip_front-append (x ∷ y ∷ a) c cs h k = ground (arith, skip_front-append (y ∷ a) c cs)

drop_back-all : (b : Bytes) → all_balnk b ≡ true → drop_back b ≡ []
drop_back-all [] h = refl
drop_back-all (c ∷ b) h = ground arith

-- A text of a single byte between blanks is lost: `trim` makes it empty.
pub trim_single :
    (a b : Bytes) (c : ℕ)
    → all_balnk a ≡ true
    → all_balnk b ≡ true
    → is_balnk c ≡ false
    → trim (a ++ (c ∷ b)) ≡ []
unfolding trim skip_back
trim_single a b c ha hb k = ground (arith, skip_front-append a c b ha k, drop_back-all b hb)
