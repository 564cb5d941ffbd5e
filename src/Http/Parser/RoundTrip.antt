-- ===== src/Http/Parser/RoundTrip.antt =====
-- How the parser reads the headers, and the whole of a request.
use learning_cpp.Prelude.{
  ◌≡◌, ◌≢◌, refl, ◌∙◌, arith, some, List, [], ◌∷◌, ◌++◌, All, Bytes, append-nil, append_assoc,
}
use learning_cpp.Http.Request.{Header, Request}
use learning_cpp.Http.Parser.{
  State, Tribool, accepted, consume_in, parse, on_back, go_back, push_name, push_value, initial,
}
use learning_cpp.Http.Parser.Step.{parse-more}
use learning_cpp.Http.Parser.Sound.{IsToken, IsText, IsHeader}
use learning_cpp.Http.Parser.Message.{number, Message, print_headers, print, request_of, IsMessage}
use learning_cpp.Http.Parser.Pieces.{
  at, token_ne, text_ne, space_no_token, colon_no_token, cr_no_token, tab_no_token, cr_ctl,
  run_method, run_uri, run_http, run_major, run_minor,
}

on_back_last :
    (f : Header → Header) (hs : List Header) (h : Header)
    → on_back f (hs ++ h ∷ []) ≡ some (hs ++ f h ∷ [])
unfolding on_back
on_back_last f [] h = refl
on_back_last f (x ∷ []) h = refl
on_back_last f (x ∷ y ∷ hs) h = rw (on_back_last f (y ∷ hs) h)

-- The request with one more header.
abbrev add : Request → List Header → Header → Request
add r hs h = record r { headers = hs ++ h ∷ [] }

go_back_last :
    (s s' : State) (f : Header → Header) (r : Request) (hs : List Header) (h : Header)
    → go_back s (at s' (add r hs h)) f ≡ some (Tribool.indeterminate, at s (add r hs (f h)))
unfolding go_back
go_back_last s s' f r hs h = rw (on_back_last f hs h, go_back)

run_name :
    (n : Bytes) (r : Request) (hs : List Header) (h : Header) (rest : Bytes)
    → IsToken n
    → parse (at State.header_name (add r hs h)) (n ++ (b':' ∷ b' ' ∷ rest))
      ≡ parse (at State.header_value (add r hs (record h { name = h.name ++ n }))) rest
unfolding consume_in
run_name [] r hs h rest t = rw append-nil (
    parse-more (at State.header_name (add r hs h)) b':' (b' ' ∷ rest) refl
    ∙ parse-more (at State.space_before_header_value (add r hs h)) b' ' rest refl)
run_name (c ∷ n) r hs h rest t =
    parse-more (at State.header_name (add r hs h)) c (n ++ (b':' ∷ b' ' ∷ rest)) (
      ground (
        arith,
        token_ne b':' c colon_no_token t.0,
        go_back_last State.header_name State.header_name (push_name c) r hs h,
      ))
    ∙ run_name n r hs (push_name c h) rest t.1
    ∙ rw append_assoc

run_value :
    (v : Bytes) (r : Request) (hs : List Header) (h : Header) (rest : Bytes)
    → IsText v
    → parse (at State.header_value (add r hs h)) (v ++ (b'\r' ∷ b'\n' ∷ rest))
      ≡ parse (at State.header_line_start (add r hs (record h { value = h.value ++ v }))) rest
unfolding consume_in
run_value [] r hs h rest t = rw append-nil (
    parse-more (at State.header_value (add r hs h)) b'\r' (b'\n' ∷ rest) refl
    ∙ parse-more (at State.expecting_newline_2 (add r hs h)) b'\n' rest refl)
run_value (c ∷ v) r hs h rest t =
    parse-more (at State.header_value (add r hs h)) c (v ++ (b'\r' ∷ b'\n' ∷ rest)) (
      ground (
        arith,
        text_ne b'\r' c cr_ctl t.0,
        go_back_last State.header_value State.header_value (push_value c) r hs h,
      ))
    ∙ run_value v r hs (push_value c h) rest t.1
    ∙ rw append_assoc

run_header :
    (r : Request) (hs : List Header) (h : Header) (rest : Bytes)
    → IsHeader h
    → parse (at State.header_line_start (record r { headers = hs })) (print_headers (h ∷ []) rest)
      ≡ parse (at State.header_line_start (add r hs h)) rest
unfolding consume_in
run_header r hs h rest k = go h.name refl k.name_token
  where
    go :
        (n : Bytes)
        → h.name ≡ n
        → IsToken n
        → parse
            (at State.header_line_start (record r { headers = hs }))
            (print_headers (h ∷ []) rest)
          ≡ parse (at State.header_line_start (add r hs h)) rest
    go [] e t = absurd (k.name_ne_nil e)
    go (c ∷ n) e t = rw e (
        parse-more (at State.header_line_start (record r { headers = hs })) c _ (
          ground (
            arith,
            token_ne b'\r' c cr_no_token t.0,
            token_ne b' ' c space_no_token t.0,
            token_ne b'\t' c tab_no_token t.0,
          ))
        ∙ run_name n r hs (record { name = c ∷ []; value = [] }) (h.value ++ (b'\r' ∷ b'\n' ∷ rest))
            t.1
        ∙ run_value h.value r hs (record { name = c ∷ n; value = [] }) rest k.value_text
        ∙ rw (← e))

run_headers :
    (new : List Header) (r : Request) (hs : List Header) (rest : Bytes)
    → All IsHeader new
    → parse (at State.header_line_start (record r { headers = hs })) (print_headers new rest)
      ≡ parse (at State.header_line_start (record r { headers = hs ++ new })) rest
run_headers [] r hs rest k = rw append-nil
run_headers (h ∷ new) r hs rest k =
    run_header r hs h (print_headers new rest) k.0
    ∙ run_headers new r (hs ++ h ∷ []) rest k.1
    ∙ rw append_assoc

run_end :
    (r : Request) (rest : Bytes)
    → parse (at State.header_line_start r) (b'\r' ∷ b'\n' ∷ rest)
      ≡ some (accepted, rest, at State.expecting_newline_3 r)
unfolding parse consume_in
run_end r rest = refl

-- The first byte is read by another state than the bytes behind it.
run_start :
    (m : Bytes) (r : Request) (rest : Bytes)
    → m ≢ []
    → IsToken m
    → parse (at State.method_start r) (m ++ (b' ' ∷ rest))
      ≡ parse (at State.uri (record r { method = r.method ++ m })) rest
unfolding consume_in
run_start [] r rest ne h = absurd (ne refl)
run_start (c ∷ m) r rest ne h =
    parse-more (at State.method_start r) c (m ++ (b' ' ∷ rest)) (ground arith)
    ∙ run_method m (record r { method = r.method ++ c ∷ [] }) rest h.1
    ∙ rw append_assoc

-- The bytes of a well-formed message (a method of token bytes, a uri without spaces and control
-- bytes, versions in digits, headers with names of token bytes and values without control bytes) are
-- accepted whole, whatever follows them, which is left; and the request is the message, with the
-- values of its digits.
pub parse-print :
    (m : Message) (rest : Bytes)
    → IsMessage m
    → parse initial (print m rest)
      ≡ some (accepted, rest, record { state = State.expecting_newline_3; req = request_of m })
parse-print m rest k =
    let r0 = initial.req in
    let r1 = record r0 { method = m.method } in
    let r2 = record r1 { uri = m.uri } in
    let r3 = record r2 { http_version_major = number 0 m.major } in
    let r4 = record r3 { http_version_minor = number 0 m.minor } in
    run_start m.method r0 _ k.method_ne_nil k.method_token
    ∙ run_uri m.uri r1 _ k.uri_is
    ∙ run_http r2 _
    ∙ run_major m.major r2 _ k.major_ne_nil k.major_digits
    ∙ run_minor m.minor r3 _ k.minor_ne_nil k.minor_digits
    ∙ run_headers m.headers r4 [] (b'\r' ∷ b'\n' ∷ rest) k.headers_are
    ∙ run_end (record r4 { headers = m.headers }) rest
