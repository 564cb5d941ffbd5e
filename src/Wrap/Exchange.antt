-- ===== src/Wrap/Exchange.antt =====
-- What `Readn` of Linux_Net/Reactor/wrap.c gets of what `Writen` sent.
use learning_cpp.Prelude.{
  take-drop, ℕ, zero, suc, ◌+◌, ◌-◌, ◌≤◌, ◌<◌, leb, ◌≡◌, refl, ap, sym, ◌∙◌, arith, true, false,
  Bool-cases, Option, some, ◌⊎◌, inl, inr, List, [], ◌∷◌, ◌++◌, append_assoc, append-nil, Bytes,
  length, length-append, length-drop, take, drop, length-take_of_le,
}
use mathlib.Core.Path.{subst}
use learning_cpp.Wrap.{
  Arrival, Received, readn_loop, readn, Taking, Sent, with_piece, writen_loop, writen,
}
use learning_cpp.Wrap.Lines.{content, Closes, content-arrives, Closes-arrives}

-- `n` bytes more, or all that there are.
abbrev pub ReadsBytes : ℕ → ℕ → Bytes → Bytes → Option Received → Type 0
ReadsBytes n nleft had text got =
    (g : Received) × (new : Bytes) × (got ≡ some g)
    × (g.bytes ≡ had ++ new)
    × (text ≡ new ++ content g.rest)
    × Closes g.rest
    × (g.result ≡ some (n - nleft + length new))
    × ((length new ≡ nleft) ⊎ ((length new < nleft) × (content g.rest ≡ [])))

module _ (n nleft c : ℕ) (cs had : Bytes) (more : List Arrival) where
  loop_on :
      leb (length cs) nleft ≡ true
      → readn_loop n (suc nleft) had (Arrival.arrives (c ∷ cs) ∷ more)
        ≡ readn_loop n (nleft - length cs) (had ++ c ∷ cs) more
  unfolding readn_loop
  loop_on e = ground arith

  loop_full :
      leb (length cs) nleft ≡ false
      → readn_loop n (suc nleft) had (Arrival.arrives (c ∷ cs) ∷ more)
        ≡ some (record {
          bytes = had ++ take (suc nleft) (c ∷ cs);
          result = some (n - 0);
          rest = Arrival.arrives (drop (suc nleft) (c ∷ cs)) ∷ more;
        })
  unfolding readn_loop
  loop_full e = ground arith

readn_loop-ReadsBytes :
    (n nleft : ℕ) (had : Bytes) (more : List Arrival)
    → nleft ≤ n
    → Closes more
    → ReadsBytes n nleft had (content more) (readn_loop n nleft had more)
unfolding readn_loop content Closes
readn_loop-ReadsBytes n zero had more h k =
    (_, [], refl, sym (append-nil had), refl, k, ap some (omega arith), inl refl)
readn_loop-ReadsBytes n (suc nleft) had [] h k = absurd k
readn_loop-ReadsBytes n (suc nleft) had (Arrival.interrupted ∷ more) h k =
    readn_loop-ReadsBytes n (suc nleft) had more h k
readn_loop-ReadsBytes n (suc nleft) had (Arrival.failed ∷ more) h k = absurd k
readn_loop-ReadsBytes n (suc nleft) had (Arrival.arrives [] ∷ more) h k =
    (_, [], refl, sym (append-nil had), refl, tt, ap some (omega arith), inr (omega arith, refl))
readn_loop-ReadsBytes n (suc nleft) had (Arrival.arrives (c ∷ cs) ∷ more) h k =
    elim (Bool-cases (leb (length cs) nleft)) [
      | inl e ↦
          let fits : length cs ≤ nleft = ground arith in
          let (g, new, got, bytes, text, closes, result, how) =
            readn_loop-ReadsBytes n (nleft - length cs) (had ++ c ∷ cs) more (omega arith) k in
          (
            g,
            (c ∷ cs) ++ new,
            loop_on n nleft c cs had more e ∙ got,
            bytes ∙ append_assoc had (c ∷ cs) new,
            ap (λ t. (c ∷ cs) ++ t) text ∙ sym (append_assoc (c ∷ cs) new (content g.rest)),
            closes,
            result ∙ ap some (omega (arith, length-append cs new)),
            elim how [
              | inl all ↦ inl (omega (arith, length-append cs new))
              | inr (short, none_left) ↦ inr (omega (arith, length-append cs new), none_left)
            ],
          )
      | inr e ↦ (
        _,
        take (suc nleft) (c ∷ cs),
        loop_full n nleft c cs had more e,
        refl,
        ap (λ t. t ++ content more) (sym (take-drop (suc nleft) (c ∷ cs)))
            ∙ append_assoc (take (suc nleft) (c ∷ cs)) (drop (suc nleft) (c ∷ cs)) (content more)
            ∙ ap (λ t. take (suc nleft) (c ∷ cs) ++ t)
                (sym (
                  content-arrives (drop (suc nleft) (c ∷ cs)) more
                    (ground (arith, length-drop nleft cs)))),
        Closes-arrives (drop (suc nleft) (c ∷ cs)) more (ground (arith, length-drop nleft cs)) k,
        ap some (ground (arith, length-take_of_le nleft cs)),
        inl (ground (arith, length-take_of_le nleft cs)),
      )
    ]

-- From a stream that is closed in the end, `Readn` returns: what it read and what is left are what arrived,
-- the number of bytes read is returned, and it is `n`, or less and then nothing is left.
pub readn_lem :
    (n : ℕ) (more : List Arrival)
    → Closes more
    → (g : Received) × (readn n more ≡ some g)
      × (content more ≡ g.bytes ++ content g.rest)
      × Closes g.rest
      × (g.result ≡ some (length g.bytes))
      × ((length g.bytes ≡ n) ⊎ ((length g.bytes < n) × (content g.rest ≡ [])))
unfolding readn
readn_lem n more h =
    let (g, new, got, bytes, text, closes, result, how) =
      readn_loop-ReadsBytes n n [] more (omega arith) h in
    (g, got, rw bytes text, closes, rw bytes (result ∙ ap some (omega arith)), rw bytes how)

-- The calls of `write` take `n` bytes before one fails or takes nothing.
abbrev pub Accepts : ℕ → List Taking → Type 0
Accepts n [] = n ≡ 0
Accepts n (Taking.interrupted ∷ ts) = Accepts n ts
Accepts n (Taking.failed ∷ ts) = n ≡ 0
Accepts n (Taking.takes zero ∷ ts) = n ≡ 0
Accepts n (Taking.takes (suc k) ∷ ts) = Accepts (n - suc k) ts

-- What left.
unfoldable pub sent : List Bytes → Bytes
sent [] = []
sent (piece ∷ pieces) = piece ++ sent pieces

writen_loop_lem :
    (n : ℕ) (message : Bytes) (ts : List Taking)
    → Accepts (length message) ts
    → (s : Sent) × (writen_loop n message ts ≡ some s)
      × (s.result ≡ some n)
      × (sent s.pieces ≡ message)
unfolding writen_loop sent
writen_loop_lem n [] ts h = (_, refl, refl, refl)
writen_loop_lem n (c ∷ cs) [] h = absurd (omega arith)
writen_loop_lem n (c ∷ cs) (Taking.interrupted ∷ ts) h = writen_loop_lem n (c ∷ cs) ts h
writen_loop_lem n (c ∷ cs) (Taking.failed ∷ ts) h = absurd (omega arith)
writen_loop_lem n (c ∷ cs) (Taking.takes zero ∷ ts) h = absurd (omega arith)
writen_loop_lem n (c ∷ cs) (Taking.takes (suc k) ∷ ts) h =
    let (s, did, result, all) =
      writen_loop_lem n (drop (suc k) (c ∷ cs)) ts
        (subst (λ m. Accepts m ts) (sym (length-drop (suc k) (c ∷ cs))) h) in
    (
      record s { pieces = take (suc k) (c ∷ cs) ∷ s.pieces },
      ap (with_piece (take (suc k) (c ∷ cs))) did,
      result,
      ap (λ t. take (suc k) (c ∷ cs) ++ t) all ∙ take-drop (suc k) (c ∷ cs),
    )

same_start : (xs ys a b : Bytes) → xs ++ a ≡ ys ++ b → length xs ≡ length ys → (xs ≡ ys) × (a ≡ b)
same_start [] [] a b h e = (refl, h)
same_start [] (y ∷ ys) a b h e = absurd (omega arith)
same_start (x ∷ xs) [] a b h e = absurd (omega arith)
same_start (x ∷ xs) (y ∷ ys) a b h e =
    let head_same : x ≡ y = ground arith in
    let (start, end) = same_start xs ys a b (ground arith) (omega arith) in
    (rw (head_same, start) refl, end)

-- When the system takes the bytes in the end, `Writen` returns their number; and `Readn` of that many bytes
-- at the other side, from a stream in which what was sent arrives first, in any parts and with any
-- interruptions, returns exactly those bytes and leaves what comes later.
pub readn-writen :
    (message later : Bytes) (ts : List Taking) (more : List Arrival) (s : Sent)
    → Accepts (length message) ts
    → writen message ts ≡ some s
    → Closes more
    → content more ≡ sent s.pieces ++ later
    → (s.result ≡ some (length message))
      × (g : Received) × (readn (length message) more ≡ some g)
      × (g.bytes ≡ message)
      × (g.result ≡ some (length message))
      × (content g.rest ≡ later)
unfolding writen
readn-writen message later ts more s takes did closes arrived =
    let (s', did', written, whole) = writen_loop_lem (length message) message ts takes in
    let same : s' ≡ s = ground arith in
    let (g, got, text, _, result, how) = readn_lem (length message) more closes in
    let total : g.bytes ++ content g.rest ≡ message ++ later =
      sym text ∙ arrived ∙ ap (λ t. t ++ later) (ap (λ x. sent x.pieces) (sym same) ∙ whole) in
    let long : length g.bytes ≡ length message = elim how [
      | inl all ↦ all
      | inr (short, none_left) ↦ absurd (
          omega (
            arith,
            ap length total,
            length-append g.bytes (content g.rest),
            length-append message later,
            ap length none_left,
          ))
    ] in
    let (bytes, rest) = same_start g.bytes message (content g.rest) later total long in
    (rw (← same) written, g, got, bytes, result ∙ ap some long, rest)
