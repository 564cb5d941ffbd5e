-- ===== src/Http/Chars.antt =====
-- The character classes of `request_parser`. A `char` is its byte, 0 to 255; a byte above 127 is a
-- negative `char`, which `is_char` and `is_ctl` both refuse.
use learning_cpp.Prelude.{ℕ, Bool, false, not, ◌&&◌, ◌||◌, leb, ◌==◌, [], ◌∷◌, Bytes, codes}

unfoldable pub is_char : ℕ → Bool
is_char c = leb c 127

unfoldable pub is_ctl : ℕ → Bool
is_ctl c = leb c 31 || c == 127

unfoldable pub one_of : Bytes → ℕ → Bool
one_of [] c = false
one_of (x ∷ xs) c = c == x || one_of xs c

-- ()<>@,;:\"/[]?={} , space and tab.
unfoldable pub is_tspecial : ℕ → Bool
unfolding one_of
is_tspecial = one_of (codes "()<>@,;:\\\"/[]?={} \t")

unfoldable pub is_digit : ℕ → Bool
is_digit c = leb b'0' c && leb c b'9'

-- The bytes that may stand in a method or in a header's name.
unfoldable pub is_token : ℕ → Bool
unfolding is_char is_ctl is_tspecial
is_token c = not (not (is_char c) || is_ctl c || is_tspecial c)
