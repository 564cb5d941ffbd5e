-- ===== src/Http/Parser.antt =====
-- `request_parser` of ad_system/server3/: the state machine and its loop.
pub mod Step
pub mod Append
pub mod Sound
pub mod Message
pub mod Pieces
pub mod RoundTrip
use learning_cpp.Prelude.{
  ℕ, ◌+◌, ◌-◌, ◌*◌, ◌%◌, ◌^◌, Bool, true, false, not, ◌&&◌, ◌||◌, ◌==◌, Option, none, some,
  if◌then◌else◌, List, [], ◌∷◌, ◌++◌, Bytes,
}
use learning_cpp.Http.Chars.{is_char, is_ctl, is_tspecial, is_digit, is_token}
use learning_cpp.Http.Request.{Header, Request}

pub data State : Type 0 where
  method_start method uri : State
  http_version_h http_version_t_1 http_version_t_2 http_version_p http_version_slash : State
  http_version_major_start http_version_major http_version_minor_start http_version_minor : State
  expecting_newline_1 header_line_start header_lws header_name space_before_header_value : State
  header_value expecting_newline_2 expecting_newline_3 : State

-- `boost::tribool`.
pub data Tribool : Type 0 where
  accepted rejected indeterminate : Tribool

-- The parser's state and the request that it fills.
pub record Parser : Type 0 where
  pub state : State
  pub req : Request

-- What a call of `consume` leaves; `none` is `back()` of an empty vector.
abbrev pub Outcome : Type 0
Outcome = Option (Tribool × Parser)

abbrev refuse : Parser → Outcome
refuse p = some (Tribool.rejected, p)

abbrev go : State → Parser → Outcome
go s p = some (Tribool.indeterminate, record p { state = s })

abbrev go_with : State → Parser → Request → Outcome
go_with s p r = some (Tribool.indeterminate, record { state = s; req = r })

-- `v = v * 10 + input - '0'` on a 32-bit `int`, where an overflow wraps around.
unfoldable pub next_digit : ℕ → ℕ → ℕ
next_digit v c = (v * 10 + (c - b'0')) % 2 ^ 32

-- `headers.back()` changed by a function.
unfoldable pub on_back : (Header → Header) → List Header → Option (List Header)
on_back f [] = none
on_back f (h ∷ []) = some (f h ∷ [])
on_back f (h ∷ h' ∷ hs) = elim (on_back f (h' ∷ hs)) [ none ↦ none | some r ↦ some (h ∷ r) ]

abbrev pub push_name : ℕ → Header → Header
push_name c h = record h { name = h.name ++ c ∷ [] }

abbrev pub push_value : ℕ → Header → Header
push_value c h = record h { value = h.value ++ c ∷ [] }

unfoldable pub go_back : State → Parser → (Header → Header) → Outcome
go_back s p f = elim (on_back f p.req.headers) [
  | none ↦ none
  | some hs ↦ go_with s p (record p.req { headers = hs })
]

abbrev push_method : Parser → ℕ → Outcome
push_method p c = go_with State.method p (record p.req { method = p.req.method ++ c ∷ [] })

-- A state that waits for one byte.
abbrev expect : ℕ → State → Parser → ℕ → Outcome
expect x s p c = if c == x then go s p else refuse p

abbrev set_major : Parser → ℕ → Outcome
set_major p c =
    go_with State.http_version_major p
      (record p.req { http_version_major = next_digit p.req.http_version_major c })

abbrev set_minor : Parser → ℕ → Outcome
set_minor p c =
    go_with State.http_version_minor p
      (record p.req { http_version_minor = next_digit p.req.http_version_minor c })

-- `!headers.empty()`.
abbrev pub is_nonempty : List Header → Bool
is_nonempty [] = false
is_nonempty (h ∷ hs) = true

abbrev pub is_blank : ℕ → Bool
is_blank c = c == b' ' || c == b'\t'

unfoldable pub consume_in : State → Parser → ℕ → Outcome
consume_in State.method_start p c = if not (is_token c) then refuse p else push_method p c
consume_in State.method p c =
    if c == b' ' then go State.uri p else if not (is_token c) then refuse p else push_method p c
consume_in State.uri p c =
    if c == b' '
    then go State.http_version_h p
    else if is_ctl c
    then refuse p
    else go_with State.uri p (record p.req { uri = p.req.uri ++ c ∷ [] })
consume_in State.http_version_h p c = expect b'H' State.http_version_t_1 p c
consume_in State.http_version_t_1 p c = expect b'T' State.http_version_t_2 p c
consume_in State.http_version_t_2 p c = expect b'T' State.http_version_p p c
consume_in State.http_version_p p c = expect b'P' State.http_version_slash p c
consume_in State.http_version_slash p c =
    if c == b'/'
    then go_with State.http_version_major_start p
        (record p.req { http_version_major = 0; http_version_minor = 0 })
    else refuse p
consume_in State.http_version_major_start p c = if is_digit c then set_major p c else refuse p
consume_in State.http_version_major p c =
    if c == b'.'
    then go State.http_version_minor_start p
    else if is_digit c
    then set_major p c
    else refuse p
consume_in State.http_version_minor_start p c = if is_digit c then set_minor p c else refuse p
consume_in State.http_version_minor p c =
    if c == b'\r'
    then go State.expecting_newline_1 p
    else if is_digit c
    then set_minor p c
    else refuse p
consume_in State.expecting_newline_1 p c = expect b'\n' State.header_line_start p c
consume_in State.header_line_start p c =
    if c == b'\r'
    then go State.expecting_newline_3 p
    else if is_nonempty p.req.headers && is_blank c
    then go State.header_lws p
    else if not (is_token c)
    then refuse p
    else go_with State.header_name p
        (record p.req { headers = p.req.headers ++ record { name = c ∷ []; value = [] } ∷ [] })
consume_in State.header_lws p c =
    if c == b'\r'
    then go State.expecting_newline_2 p
    else if is_blank c
    then go State.header_lws p
    else if is_ctl c
    then refuse p
    else go_back State.header_value p (push_value c)
consume_in State.header_name p c =
    if c == b':'
    then go State.space_before_header_value p
    else if not (is_token c)
    then refuse p
    else go_back State.header_name p (push_name c)
consume_in State.space_before_header_value p c = expect b' ' State.header_value p c
consume_in State.header_value p c =
    if c == b'\r'
    then go State.expecting_newline_2 p
    else if is_ctl c
    then refuse p
    else go_back State.header_value p (push_value c)
consume_in State.expecting_newline_2 p c = expect b'\n' State.header_line_start p c
consume_in State.expecting_newline_3 p c =
    some (if c == b'\n' then Tribool.accepted else Tribool.rejected, p)

abbrev pub consume : Parser → ℕ → Outcome
consume p = consume_in p.state p

-- `parse`: the result, what is left of the input, and the parser.
unfoldable pub parse : Parser → Bytes → Option (Tribool × Bytes × Parser)
parse p [] = some (Tribool.indeterminate, [], p)
parse p (c ∷ cs) = elim (consume p c) [
  | none ↦ none
  | some (Tribool.indeterminate, p') ↦ parse p' cs
  | some (Tribool.accepted, p') ↦ some (Tribool.accepted, cs, p')
  | some (Tribool.rejected, p') ↦ some (Tribool.rejected, cs, p')
]

-- The constructor of `request_parser`, beside a request that is not filled yet. The versions of the
-- source's request are not initialised; they are set before they are read.
abbrev pub initial : Parser
initial = record {
  state = State.method_start;
  req = record {
    method = [];
    uri = [];
    http_version_major = 0;
    http_version_minor = 0;
    headers = [];
  };
}

-- `reset()`.
abbrev pub reset : Parser → Parser
reset p = record p { state = State.method_start }
