-- ===== src/Http/Parser/Pieces.antt =====
-- How the parser reads the pieces of a request line, each with any `rest` behind it.
use learning_cpp.Prelude.{
  ℕ, ◌≡◌, ◌≢◌, refl, ◌∙◌, arith, true, false, [], ◌∷◌, ◌++◌, Bytes, ◌==◌, append-nil, append_assoc,
}
use learning_cpp.Http.Chars.{is_token, is_ctl, is_digit}
use learning_cpp.Http.Request.{Request}
use learning_cpp.Http.Parser.{Parser, State, consume_in, parse, next_digit}
use learning_cpp.Http.Parser.Step.{parse-more}
use learning_cpp.Http.Parser.Sound.{IsToken, IsUri}
use learning_cpp.Http.Parser.Message.{IsDigits, number}

abbrev pub at : State → Request → Parser
at s r = record { state = s; req = r }

pub token_ne : (x c : ℕ) → is_token x ≡ false → is_token c ≡ true → (c == x) ≡ false
token_ne x c h k = ground arith

pub text_ne : (x c : ℕ) → is_ctl x ≡ true → is_ctl c ≡ false → (c == x) ≡ false
text_ne x c h k = ground arith

pub space_no_token : is_token b' ' ≡ false
unfolding is_token
space_no_token = refl

pub colon_no_token : is_token b':' ≡ false
unfolding is_token
colon_no_token = refl

pub cr_no_token : is_token b'\r' ≡ false
unfolding is_token
cr_no_token = refl

pub tab_no_token : is_token b'\t' ≡ false
unfolding is_token
tab_no_token = refl

pub cr_ctl : is_ctl b'\r' ≡ true
unfolding is_ctl
cr_ctl = refl

pub run_method :
    (m : Bytes) (r : Request) (rest : Bytes)
    → IsToken m
    → parse (at State.method r) (m ++ (b' ' ∷ rest))
      ≡ parse (at State.uri (record r { method = r.method ++ m })) rest
unfolding consume_in
run_method [] r rest h = rw append-nil (parse-more (at State.method r) b' ' rest refl)
run_method (c ∷ m) r rest h =
    parse-more (at State.method r) c (m ++ (b' ' ∷ rest))
      (ground (arith, token_ne b' ' c space_no_token h.0))
    ∙ run_method m (record r { method = r.method ++ c ∷ [] }) rest h.1
    ∙ rw append_assoc

pub run_uri :
    (u : Bytes) (r : Request) (rest : Bytes)
    → IsUri u
    → parse (at State.uri r) (u ++ (b' ' ∷ rest))
      ≡ parse (at State.http_version_h (record r { uri = r.uri ++ u })) rest
unfolding consume_in
run_uri [] r rest h = rw append-nil (parse-more (at State.uri r) b' ' rest refl)
run_uri (c ∷ u) r rest h =
    parse-more (at State.uri r) c (u ++ (b' ' ∷ rest)) (ground arith)
    ∙ run_uri u (record r { uri = r.uri ++ c ∷ [] }) rest h.1
    ∙ rw append_assoc

pub run_http :
    (r : Request) (rest : Bytes)
    → parse (at State.http_version_h r) (b'H' ∷ b'T' ∷ b'T' ∷ b'P' ∷ b'/' ∷ rest)
      ≡ parse
          (at State.http_version_major_start
            (record r { http_version_major = 0; http_version_minor = 0 }))
          rest
unfolding parse consume_in
run_http r rest = refl

digit_ne : (x c : ℕ) → is_digit x ≡ false → is_digit c ≡ true → (c == x) ≡ false
digit_ne x c h k = ground arith

dot_no_digit : is_digit b'.' ≡ false
unfolding is_digit
dot_no_digit = refl

cr_no_digit : is_digit b'\r' ≡ false
unfolding is_digit
cr_no_digit = refl

pub run_major_digits :
    (ds : Bytes) (r : Request) (rest : Bytes)
    → IsDigits ds
    → parse (at State.http_version_major r) (ds ++ (b'.' ∷ rest))
      ≡ parse
          (at State.http_version_minor_start
            (record r { http_version_major = number r.http_version_major ds }))
          rest
unfolding consume_in
run_major_digits [] r rest h = parse-more (at State.http_version_major r) b'.' rest refl
run_major_digits (d ∷ ds) r rest h =
    parse-more (at State.http_version_major r) d (ds ++ (b'.' ∷ rest))
      (ground (arith, digit_ne b'.' d dot_no_digit h.0))
    ∙ run_major_digits ds (record r { http_version_major = next_digit r.http_version_major d }) rest
        h.1

pub run_major :
    (ds : Bytes) (r : Request) (rest : Bytes)
    → ds ≢ []
    → IsDigits ds
    → parse (at State.http_version_major_start r) (ds ++ (b'.' ∷ rest))
      ≡ parse
          (at State.http_version_minor_start
            (record r { http_version_major = number r.http_version_major ds }))
          rest
unfolding consume_in
run_major [] r rest ne h = absurd (ne refl)
run_major (d ∷ ds) r rest ne h =
    parse-more (at State.http_version_major_start r) d (ds ++ (b'.' ∷ rest)) (ground arith)
    ∙ run_major_digits ds (record r { http_version_major = next_digit r.http_version_major d }) rest
        h.1

pub run_minor_digits :
    (ds : Bytes) (r : Request) (rest : Bytes)
    → IsDigits ds
    → parse (at State.http_version_minor r) (ds ++ (b'\r' ∷ b'\n' ∷ rest))
      ≡ parse
          (at State.header_line_start
            (record r { http_version_minor = number r.http_version_minor ds }))
          rest
unfolding consume_in
run_minor_digits [] r rest h =
    parse-more (at State.http_version_minor r) b'\r' (b'\n' ∷ rest) refl
    ∙ parse-more (at State.expecting_newline_1 r) b'\n' rest refl
run_minor_digits (d ∷ ds) r rest h =
    parse-more (at State.http_version_minor r) d (ds ++ (b'\r' ∷ b'\n' ∷ rest))
      (ground (arith, digit_ne b'\r' d cr_no_digit h.0))
    ∙ run_minor_digits ds (record r { http_version_minor = next_digit r.http_version_minor d }) rest
        h.1

pub run_minor :
    (ds : Bytes) (r : Request) (rest : Bytes)
    → ds ≢ []
    → IsDigits ds
    → parse (at State.http_version_minor_start r) (ds ++ (b'\r' ∷ b'\n' ∷ rest))
      ≡ parse
          (at State.header_line_start
            (record r { http_version_minor = number r.http_version_minor ds }))
          rest
unfolding consume_in
run_minor [] r rest ne h = absurd (ne refl)
run_minor (d ∷ ds) r rest ne h =
    parse-more (at State.http_version_minor_start r) d (ds ++ (b'\r' ∷ b'\n' ∷ rest)) (ground arith)
    ∙ run_minor_digits ds (record r { http_version_minor = next_digit r.http_version_minor d }) rest
        h.1
