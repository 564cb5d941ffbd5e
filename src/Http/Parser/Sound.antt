-- ===== src/Http/Parser/Sound.antt =====
-- What an accepted request looks like, and that `back()` is never called on an empty vector.
use learning_cpp.Prelude.{
  ℕ, ◌≡◌, ◌≢◌, refl, arith, Bool, true, false, Option, none, some, List, [], ◌∷◌, ◌++◌, All, Bytes,
  ◌==◌, ◌&&◌,
}
use learning_cpp.Http.Chars.{is_token, is_ctl}
use learning_cpp.Http.Request.{Header, Request}
use learning_cpp.Http.Parser.Step.{Turn, turn, parse-more, parse-accept, parse-reject}
use learning_cpp.Http.Parser.{
  Parser, State, Tribool, accepted, rejected, indeterminate, Outcome, consume_in, consume, parse,
  initial, on_back, go_back, is_nonempty, is_blank, push_name, push_value,
}

abbrev pub IsToken : Bytes → Type 0
IsToken = All (λ c. is_token c ≡ true)

abbrev pub IsText : Bytes → Type 0
IsText = All (λ c. is_ctl c ≡ false)

-- No control byte and no space.
abbrev pub IsUri : Bytes → Type 0
IsUri = All (λ c. (is_ctl c ≡ false) × ((c == b' ') ≡ false))

pub record IsHeader (h : Header) : Type 0 where
  pub name_ne_nil : h.name ≢ []
  pub name_token : IsToken h.name
  pub value_text : IsText h.value

pub record IsRequest (r : Request) : Type 0 where
  pub method_token : IsToken r.method
  pub uri_is : IsUri r.uri
  pub headers_are : All IsHeader r.headers

-- What a state knows beside: a method that was begun, a header that was begun.
abbrev pub Knows : State → Request → Type 0
Knows State.method_start r = Unit
Knows State.header_lws r = (r.method ≢ []) × (r.headers ≢ [])
Knows State.header_name r = (r.method ≢ []) × (r.headers ≢ [])
Knows State.space_before_header_value r = (r.method ≢ []) × (r.headers ≢ [])
Knows State.header_value r = (r.method ≢ []) × (r.headers ≢ [])
Knows State.expecting_newline_2 r = (r.method ≢ []) × (r.headers ≢ [])
Knows _ r = r.method ≢ []

pub record Inv (p : Parser) : Type 0 where
  pub request : IsRequest p.req
  pub knows : Knows p.state p.req

abbrev Keeps : Outcome → Type 0
Keeps none = ⊥
Keeps (some (indeterminate, q)) = Inv q
Keeps (some (accepted, q)) = IsRequest q.req × (q.req.method ≢ [])
Keeps (some (rejected, q)) = Unit

All-concat {ℓ} : (P : ℕ → Type ℓ) (xs : Bytes) (c : ℕ) → All P xs → P c → All P (xs ++ c ∷ [])
All-concat P [] c h k = (k, tt)
All-concat P (x ∷ xs) c h k = (h.0, All-concat P xs c h.1 k)

concat_ne_nil : (xs : Bytes) (c : ℕ) → xs ++ c ∷ [] ≢ []
concat_ne_nil [] c e = cc
concat_ne_nil (x ∷ xs) c e = cc

-- `headers.back()` is changed, and is still a header.
on_back-IsHeader :
    (f : Header → Header) (hs : List Header)
    → ((h : Header) → IsHeader h → IsHeader (f h))
    → hs ≢ []
    → All IsHeader hs
    → (r : List Header) × (on_back f hs ≡ some r) × All IsHeader r × (r ≢ [])
unfolding on_back
on_back-IsHeader f [] k ne h = absurd (ne refl)
on_back-IsHeader f (x ∷ []) k ne h = (f x ∷ [], refl, (k x h.0, tt), λ e. cc)
on_back-IsHeader f (x ∷ y ∷ hs) k ne h =
    let (r, e, g, _) = on_back-IsHeader f (y ∷ hs) k (λ e. cc) h.1 in
    (x ∷ r, rw e, (h.0, g), λ e. cc)

push_name-IsHeader :
    (c : ℕ) → is_token c ≡ true → (h : Header) → IsHeader h → IsHeader (push_name c h)
push_name-IsHeader c t h k = record {
  name_ne_nil = concat_ne_nil h.name c;
  name_token = All-concat (λ c. is_token c ≡ true) h.name c k.name_token t;
  value_text = k.value_text;
}

push_value-IsHeader :
    (c : ℕ) → is_ctl c ≡ false → (h : Header) → IsHeader h → IsHeader (push_value c h)
push_value-IsHeader c t h k = record {
  name_ne_nil = k.name_ne_nil;
  name_token = k.name_token;
  value_text = All-concat (λ c. is_ctl c ≡ false) h.value c k.value_text t;
}

with_headers :
    (r : Request) (hs : List Header)
    → IsRequest r
    → All IsHeader hs
    → IsRequest (record r { headers = hs })
with_headers r hs k h = record { method_token = k.method_token; uri_is = k.uri_is; headers_are = h }

go_back-Keeps :
    (s : State) (p : Parser) (f : Header → Header)
    → IsRequest p.req
    → p.req.method ≢ []
    → p.req.headers ≢ []
    → ((h : Header) → IsHeader h → IsHeader (f h))
    → ((r : Request) → r.method ≢ [] → r.headers ≢ [] → Knows s r)
    → Keeps (go_back s p f)
unfolding go_back
go_back-Keeps s p f k m ne g w =
    let (r, e, hs, rn) = on_back-IsHeader f p.req.headers g ne k.headers_are in
    rw (e, go_back) (record { request = with_headers p.req r k hs; knows = w _ m rn })

with_method :
    (r : Request) (c : ℕ)
    → IsRequest r
    → is_token c ≡ true
    → IsRequest (record r { method = r.method ++ c ∷ [] })
with_method r c k t = record {
  method_token = All-concat (λ c. is_token c ≡ true) r.method c k.method_token t;
  uri_is = k.uri_is;
  headers_are = k.headers_are;
}

with_uri :
    (r : Request) (c : ℕ)
    → IsRequest r
    → is_ctl c ≡ false
    → (c == b' ') ≡ false
    → IsRequest (record r { uri = r.uri ++ c ∷ [] })
with_uri r c k t s = record {
  method_token = k.method_token;
  uri_is = All-concat (λ c. (is_ctl c ≡ false) × ((c == b' ') ≡ false)) r.uri c k.uri_is (t, s);
  headers_are = k.headers_are;
}

All-headers-concat :
    (hs : List Header) (h : Header) → All IsHeader hs → IsHeader h → All IsHeader (hs ++ h ∷ [])
All-headers-concat [] h a k = (k, tt)
All-headers-concat (x ∷ hs) h a k = (a.0, All-headers-concat hs h a.1 k)

headers_ne_nil : (hs : List Header) (h : Header) → hs ++ h ∷ [] ≢ []
headers_ne_nil [] h e = cc
headers_ne_nil (x ∷ hs) h e = cc

with_version :
    (r : Request) (a b : ℕ)
    → IsRequest r
    → IsRequest (record r { http_version_major = a; http_version_minor = b })
with_version r a b k = record {
  method_token = k.method_token;
  uri_is = k.uri_is;
  headers_are = k.headers_are;
}

opened-IsHeader : (c : ℕ) → is_token c ≡ true → IsHeader (record { name = c ∷ []; value = [] })
opened-IsHeader c t = record { name_ne_nil = λ e. cc; name_token = (t, tt); value_text = tt }

nonempty_headers : (hs : List Header) (b : Bool) → (is_nonempty hs && b) ≡ true → hs ≢ []
nonempty_headers [] b h e = cc
nonempty_headers (x ∷ hs) b h e = cc

module _ (p : Parser) (c : ℕ) (k : IsRequest p.req) where
  add_header :
      is_token c ≡ true
      → IsRequest
          (record p.req { headers = p.req.headers ++ record { name = c ∷ []; value = [] } ∷ [] })
  add_header t =
      with_headers p.req _ k
        (All-headers-concat p.req.headers _ k.headers_are (opened-IsHeader c t))

consume_in-Keeps :
    (s : State) (p : Parser) (c : ℕ) → IsRequest p.req → Knows s p.req → Keeps (consume_in s p c)
unfolding consume_in
consume_in-Keeps State.method_start p c k w =
    ground (arith, with_method p.req c k, concat_ne_nil p.req.method c)
consume_in-Keeps State.method p c k w =
    ground (arith, with_method p.req c k, concat_ne_nil p.req.method c)
consume_in-Keeps State.uri p c k w = ground (arith, with_uri p.req c k)
consume_in-Keeps State.http_version_slash p c k w = ground (arith, with_version p.req 0 0 k)
consume_in-Keeps State.header_line_start p c k w = ground (
  arith,
  nonempty_headers p.req.headers (is_blank c),
  add_header p c k,
  headers_ne_nil p.req.headers (record { name = c ∷ []; value = [] }),
)
consume_in-Keeps State.header_lws p c k w = ground (
  arith,
  λ (t : is_ctl c ≡ false).
      go_back-Keeps State.header_value p (push_value c) k w.0 w.1 (push_value-IsHeader c t)
        (λ r a b. (a, b)),
)
consume_in-Keeps State.header_name p c k w = ground (
  arith,
  λ (t : is_token c ≡ true).
      go_back-Keeps State.header_name p (push_name c) k w.0 w.1 (push_name-IsHeader c t)
        (λ r a b. (a, b)),
)
consume_in-Keeps State.header_value p c k w = ground (
  arith,
  λ (t : is_ctl c ≡ false).
      go_back-Keeps State.header_value p (push_value c) k w.0 w.1 (push_value-IsHeader c t)
        (λ r a b. (a, b)),
)
consume_in-Keeps _ p c k w = ground arith

-- What `parse` may leave, from a good state.
abbrev pub Sound : Option (Tribool × Bytes × Parser) → Type 0
Sound none = ⊥
Sound (some (indeterminate, rest, q)) = (rest ≡ []) × Inv q
Sound (some (accepted, rest, q)) = IsRequest q.req × (q.req.method ≢ [])
Sound (some (rejected, rest, q)) = Unit

parse-Sound : (bs : Bytes) (p : Parser) → Inv p → Sound (parse p bs)
unfolding parse
parse-Sound [] p h = (refl, h)
parse-Sound (c ∷ cs) p h =
    let k = consume_in-Keeps p.state p c h.request h.knows in
    elim (turn (consume p c)) [
      | Turn.fault e ↦ absurd (rw e at k)
      | Turn.more q e ↦ rw (parse-more p c cs e) (parse-Sound cs q (rw e at k))
      | Turn.accept q e ↦ rw (parse-accept p c cs e) (rw e at k)
      | Turn.reject q e ↦ rw (parse-reject p c cs e) tt
    ]

-- On any input, `parse` from the initial state calls no `back()` on an empty vector; and what it
-- accepts is a request: a nonempty method of token bytes, a uri without spaces and control bytes,
-- headers with nonempty names of token bytes and values without control bytes. Where more input is
-- wanted, all of the input was read, and the same holds of the request so far.
pub parse-initial-Sound : (bs : Bytes) → Sound (parse initial bs)
parse-initial-Sound bs =
    parse-Sound bs initial
      (record { request = record { method_token = tt; uri_is = tt; headers_are = tt }; knows = tt })
