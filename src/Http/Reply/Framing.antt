-- ===== src/Http/Reply/Framing.antt =====
-- The replies of ad_system/server3/ on the wire, as the client reads them.
use learning_cpp.Prelude.{
  ℕ, suc, zero, ◌+◌, ◌≤◌, ◌<◌, ◌≡◌, refl, ap, ◌∙◌, arith, Bool, true, false, ◌==◌, some, List, [],
  ◌∷◌, ◌++◌, All, Bytes, codes, length, length-append, append_assoc, append-nil, equal,
}
use learning_cpp.Http.Request.{Header}
use learning_cpp.Http.Reply.{
  Status, Reply, status_code, status_line, to_buffers, header_buffers, gather,
}
use learning_cpp.Http.Reply.Client.{
  split, split_two, read_line, read_header, header_before, read_headers, read_status, status_before,
  read_reply,
}

abbrev pub NoByte : ℕ → Bytes → Type 0
NoByte x = All (λ c. (c == x) ≡ false)

abbrev pub is_empty : Bytes → Bool
is_empty [] = true
is_empty (c ∷ cs) = false

-- A header that a line can carry.
pub record IsLine (h : Header) : Type 0 where
  pub name_ne_nil : is_empty h.name ≡ false
  pub name_colon : NoByte b':' h.name
  pub name_cr : NoByte b'\r' h.name
  pub value_cr : NoByte b'\r' h.value

split-append : (x : ℕ) (a rest : Bytes) → NoByte x a → split x (a ++ (x ∷ rest)) ≡ some (a, rest)
split-append x [] rest h = ground arith
split-append x (c ∷ a) rest h = rw (split, h.0, split-append x a rest h.1) refl

-- The bytes of a header line without its end.
abbrev header_line : Header → Bytes
header_line h = h.name ++ (b':' ∷ b' ' ∷ h.value)

NoByte-append : (x : ℕ) (a b : Bytes) → NoByte x a → NoByte x b → NoByte x (a ++ b)
NoByte-append x [] b h k = k
NoByte-append x (c ∷ a) b h k = (h.0, NoByte-append x a b h.1 k)

header_line_cr : (h : Header) → IsLine h → NoByte b'\r' (header_line h)
header_line_cr h k = NoByte-append b'\r' h.name _ k.name_cr (refl, (refl, k.value_cr))

read_header-header_line : (h : Header) → IsLine h → read_header (header_line h) ≡ some h
read_header-header_line h k =
    rw (read_header, split_two, split-append b':' h.name (b' ' ∷ h.value) k.name_colon) refl

read_line-append :
    (l rest : Bytes) → NoByte b'\r' l → read_line (l ++ (b'\r' ∷ b'\n' ∷ rest)) ≡ some (l, rest)
read_line-append l rest h = rw (read_line, split_two, split-append b'\r' l (b'\n' ∷ rest) h) refl

header_line_nonempty : (h : Header) → IsLine h → is_empty (header_line h) ≡ false
header_line_nonempty h k = go h.name k.name_ne_nil
  where
    go : (n : Bytes) → is_empty n ≡ false → is_empty (n ++ (b':' ∷ b' ' ∷ h.value)) ≡ false
    go [] e = cc
    go (c ∷ n) e = refl

-- The buffers of the headers, gathered with what follows them, are their lines.
gather_headers :
    (h : Header) (hs : List Header) (rest : List Bytes)
    → gather (header_buffers (h ∷ hs) ++ rest)
      ≡ header_line h ++ (b'\r' ∷ b'\n' ∷ gather (header_buffers hs ++ rest))
gather_headers h hs rest = simp append_assoc

-- A line of a header in front of what a client goes on with.
read_headers-line :
    (h : Header) (fuel : ℕ) (rest : Bytes)
    → IsLine h
    → read_headers (suc fuel) (header_line h ++ (b'\r' ∷ b'\n' ∷ rest))
      ≡ header_before (some h) (read_headers fuel rest)
unfolding read_headers
read_headers-line h fuel rest k =
    go (header_line h) (header_line_nonempty h k) (header_line_cr h k) (read_header-header_line h k)
  where
    go :
        (l : Bytes)
        → is_empty l ≡ false
        → NoByte b'\r' l
        → read_header l ≡ some h
        → read_headers (suc fuel) (l ++ (b'\r' ∷ b'\n' ∷ rest))
          ≡ header_before (some h) (read_headers fuel rest)
    go [] e n r = absurd (cc)
    go (c ∷ l) e n r = rw (read_headers, read_line-append (c ∷ l) rest n, r) refl

length-gather :
    (hs : List Header) (rest : List Bytes)
    → length hs + length (gather rest) ≤ length (gather (header_buffers hs ++ rest))
length-gather [] rest = omega arith
length-gather (h ∷ hs) rest = rw (gather_headers h hs rest) (
    omega (
      arith,
      length-append (header_line h) (b'\r' ∷ b'\n' ∷ gather (header_buffers hs ++ rest)),
      length-gather hs rest,
    ))

read_headers-header_buffers :
    (hs : List Header) (fuel : ℕ) (content : Bytes)
    → All IsLine hs
    → length hs < fuel
    → read_headers fuel (gather (header_buffers hs ++ (codes "\r\n" ∷ content ∷ [])))
      ≡ some (hs, content ++ [])
unfolding read_headers
read_headers-header_buffers hs zero content k h = absurd (omega arith)
read_headers-header_buffers [] (suc fuel) content k h = refl
read_headers-header_buffers (x ∷ hs) (suc fuel) content k h =
    let rest = codes "\r\n" ∷ content ∷ [] in
    rw (gather_headers x hs rest) (
      read_headers-line x fuel (gather (header_buffers hs ++ rest)) k.0
      ∙ ap (header_before (some x)) (read_headers-header_buffers hs fuel content k.1 (omega arith)))

-- Every status line is read as a line, and as the code of its status.
status_line_lem :
    (s : Status) (rest : Bytes)
    → (l : Bytes) × (read_line (status_line s ++ rest) ≡ some (l, rest))
      × (read_status l ≡ some (status_code s))
unfolding status_line read_status status_code equal
status_line_lem Status.ok rest = (_, refl, refl)
status_line_lem _ rest = (_, refl, refl)

-- What `to_buffers` puts on the wire is read back by the client as the code of the status, the headers
-- and the content, whatever bytes the content holds; the headers have nonempty names without a colon
-- or a carriage return, and values without a carriage return.
pub read_reply-to_buffers :
    (r : Reply)
    → All IsLine r.headers
    → read_reply (gather (to_buffers r)) ≡ some (status_code r.status, r.headers, r.content)
unfolding read_reply to_buffers
read_reply-to_buffers r k =
    let rest = codes "\r\n" ∷ r.content ∷ [] in
    let more = gather (header_buffers r.headers ++ rest) in
    let bs = status_line r.status ++ more in
    let (l, first, code) = status_line_lem r.status more in
    let enough : length r.headers < length bs =
      omega (arith, length-append (status_line r.status) more, length-gather r.headers rest) in
    rw (read_reply, first, code)
      (ap (status_before (some (status_code r.status)))
          (read_headers-header_buffers r.headers (length bs) r.content k enough)
        ∙ rw append-nil refl)
