-- ===== src/Wrap/Lines.antt =====
-- What `Readline` of Linux_Net/Reactor/wrap.c makes of a stream that is closed in the end.
use learning_cpp.Prelude.{
  take-drop, ℕ, zero, suc, ◌+◌, ◌-◌, ◌≤◌, ◌<◌, ltb, leb, ◌==◌, ◌≡◌, refl, ap, sym, ◌∙◌, arith, true,
  false, Bool-cases, Option, some, ◌⊎◌, inl, inr, List, [], ◌∷◌, ◌++◌, append_assoc, Bytes, All,
  length, length-append, length-drop, take, drop,
}
use mathlib.Core.Path.{subst}
use learning_cpp.Wrap.{
  Arrival, left_over, Rc, Reader, buf_size, refill, my_read, Line, readline_loop, readline,
}

-- What arrives up to the end of the file.
unfoldable pub content : List Arrival → Bytes
content [] = []
content (Arrival.interrupted ∷ more) = content more
content (Arrival.failed ∷ more) = []
content (Arrival.arrives [] ∷ more) = []
content (Arrival.arrives (c ∷ cs) ∷ more) = (c ∷ cs) ++ content more

-- No call fails, and the other side closes in the end.
unfoldable pub Closes : List Arrival → Type 0
Closes [] = ⊥
Closes (Arrival.interrupted ∷ more) = Closes more
Closes (Arrival.failed ∷ more) = ⊥
Closes (Arrival.arrives [] ∷ more) = Unit
Closes (Arrival.arrives (c ∷ cs) ∷ more) = Closes more

-- What the caller has still to get.
abbrev pub pending : Reader → Bytes
pending r = r.read_buf ++ content r.arrivals

drop_all {ℓ} : {A : Type ℓ} (n : ℕ) (xs : List A) → length xs ≤ n → drop n xs ≡ []
drop_all zero [] h = refl
drop_all zero (x ∷ xs) h = absurd (omega arith)
drop_all (suc n) [] h = refl
drop_all (suc n) (x ∷ xs) h = drop_all n xs (omega arith)

pub content-arrives :
    (bs : Bytes) (more : List Arrival)
    → ltb 0 (length bs) ≡ true
    → content (Arrival.arrives bs ∷ more) ≡ bs ++ content more
unfolding content
content-arrives [] more h = absurd (ground arith)
content-arrives (c ∷ cs) more h = refl

pub Closes-arrives :
    (bs : Bytes) (more : List Arrival)
    → ltb 0 (length bs) ≡ true
    → Closes more
    → Closes (Arrival.arrives bs ∷ more)
unfolding Closes
Closes-arrives [] more h k = absurd (ground arith)
Closes-arrives (c ∷ cs) more h k = k

-- What did not fit stays, before the rest.
pub content-left_over :
    (n c : ℕ) (cs : Bytes) (more : List Arrival)
    → content (left_over n (c ∷ cs) more) ≡ drop n (c ∷ cs) ++ content more
content-left_over n c cs more = elim (Bool-cases (leb (length (c ∷ cs)) n)) [
  | inl e ↦ ground (arith, drop_all n (c ∷ cs))
  | inr e ↦ ground (arith, content-arrives (drop n (c ∷ cs)) more, length-drop n (c ∷ cs))
]

pub Closes-left_over :
    (n c : ℕ) (cs : Bytes) (more : List Arrival) → Closes more → Closes (left_over n (c ∷ cs) more)
Closes-left_over n c cs more h = elim (Bool-cases (leb (length (c ∷ cs)) n)) [
  | inl e ↦ rw e h
  | inr e ↦ rw e (Closes-arrives (drop n (c ∷ cs)) more (ground (arith, length-drop n (c ∷ cs))) h)
]

-- A byte is read and was the next one, or there is none left.
abbrev Reads : Bytes → Option (Rc × Reader) → Type 0
Reads text got =
    ((r : Reader) × (got ≡ some (Rc.end_of_file, r))
      × (text ≡ [])
      × (pending r ≡ [])
      × Closes r.arrivals)
    ⊎ ((c : ℕ) × (r : Reader) × (got ≡ some (Rc.one c, r))
        × (text ≡ c ∷ pending r)
        × Closes r.arrivals)

refill-Reads : (more : List Arrival) → Closes more → Reads (content more) (refill more)
unfolding refill content Closes
refill-Reads [] h = absurd h
refill-Reads (Arrival.interrupted ∷ more) h = refill-Reads more h
refill-Reads (Arrival.failed ∷ more) h = absurd h
refill-Reads (Arrival.arrives [] ∷ more) h = inl (_, refl, refl, refl, tt)
refill-Reads (Arrival.arrives (c ∷ cs) ∷ more) h = inr (
  c,
  _,
  refl,
  ap (◌∷◌ c) (
      ap (λ t. t ++ content more) (sym (take-drop 99 cs))
      ∙ append_assoc (take 99 cs) (drop 99 cs) (content more)
      ∙ ap (λ t. take 99 cs ++ t) (sym (content-left_over buf_size c cs more))),
  Closes-left_over buf_size c cs more h,
)

my_read-Reads : (r : Reader) → Closes r.arrivals → Reads (pending r) (my_read r)
unfolding my_read
my_read-Reads r h = elim (List-cases r.read_buf) [
  | inl e ↦ rw e (refill-Reads r.arrivals h)
  | inr (c, cs, e) ↦ rw e (inr (c, _, refl, refl, h))
]
  where
    List-cases : (bs : Bytes) → (bs ≡ []) ⊎ ((c : ℕ) × (cs : Bytes) × (bs ≡ c ∷ cs))
    List-cases [] = inl refl
    List-cases (c ∷ cs) = inr (c, cs, refl)

-- No newline.
abbrev pub Plain : Bytes → Type 0
Plain = All (λ c. (c == 10) ≡ false)

Plain-append : (xs : Bytes) (c : ℕ) → Plain xs → (c == 10) ≡ false → Plain (xs ++ c ∷ [])
Plain-append [] c h k = (k, tt)
Plain-append (x ∷ xs) c h k = (h.0, Plain-append xs c h.1 k)

-- The line is what was pending up to a newline, or up to the end, or as much as there is room for.
abbrev pub Ends : ℕ → Line → Type 0
Ends maxlen l =
    ((body : Bytes) × (l.line ≡ body ++ 10 ∷ [])
      × Plain body
      × (l.result ≡ some (length l.line))
      × (length l.line < maxlen))
    ⊎ (Plain l.line
        × (pending l.reader ≡ [])
        × (l.result ≡ some (length l.line))
        × (length l.line + 1 < maxlen))
    ⊎ (Plain l.line × (l.result ≡ some maxlen) × (length l.line + 1 ≡ maxlen))

abbrev pub ReadsLine : ℕ → Bytes → Option Line → Type 0
ReadsLine maxlen text got =
    (l : Line) × (got ≡ some l)
    × (text ≡ l.line ++ pending l.reader)
    × Closes l.reader.arrivals
    × Ends maxlen l

loop_without_room :
    (n : ℕ) (line : Bytes) (r : Reader)
    → readline_loop zero n line r ≡ some (record { line = line; result = some n; reader = r })
unfolding readline_loop
loop_without_room n line r = refl

-- What a turn of the loop does.
module _ (k n : ℕ) (line : Bytes) (r r' : Reader) where
  loop_at_end :
      my_read r ≡ some (Rc.end_of_file, r')
      → readline_loop (suc k) n line r
        ≡ some (record { line = line; result = some (n - 1); reader = r' })
  unfolding readline_loop
  loop_at_end e = ground arith

  loop_at_newline :
      (c : ℕ)
      → my_read r ≡ some (Rc.one c, r')
      → (c == 10) ≡ true
      → readline_loop (suc k) n line r
        ≡ some (record { line = line ++ c ∷ []; result = some n; reader = r' })
  unfolding readline_loop
  loop_at_newline c e f = ground arith

  loop_at_byte :
      (c : ℕ)
      → my_read r ≡ some (Rc.one c, r')
      → (c == 10) ≡ false
      → readline_loop (suc k) n line r ≡ readline_loop k (n + 1) (line ++ c ∷ []) r'
  unfolding readline_loop
  loop_at_byte c e f = ground arith

readline_loop-ReadsLine :
    (k n : ℕ) (line : Bytes) (r : Reader)
    → Closes r.arrivals
    → Plain line
    → n ≡ length line + 1
    → ReadsLine (n + k) (line ++ pending r) (readline_loop k n line r)
readline_loop-ReadsLine zero n line r h p e =
    (_, loop_without_room n line r, refl, h, inr (inr (p, ap some (omega arith), omega arith)))
readline_loop-ReadsLine (suc k) n line r h p e = elim (my_read-Reads r h) [
  | inl (r', got, text, left, closes) ↦ (
    _,
    loop_at_end k n line r r' got,
    ap (λ t. line ++ t) (text ∙ sym left),
    closes,
    inr (inl (p, left, ap some (omega arith), omega arith)),
  )
  | inr (c, r', got, text, closes) ↦ elim (Bool-cases (c == 10)) [
    | inl f ↦
        let same : c ≡ 10 = ground arith in
        (
          _,
          loop_at_newline k n line r r' c got f,
          ap (λ t. line ++ t) text ∙ sym (append_assoc line (c ∷ []) (pending r')),
          closes,
          inl (
            line,
            ap (λ d. line ++ d ∷ []) same,
            p,
            ap some (omega (arith, length-append line (c ∷ []))),
            omega (arith, length-append line (c ∷ [])),
          ),
        )
    | inr f ↦
        let rest =
          readline_loop-ReadsLine k (n + 1) (line ++ c ∷ []) r' closes (Plain-append line c p f)
            (omega (arith, length-append line (c ∷ []))) in
        rw
          (
            loop_at_byte k n line r r' c got f,
            text,
            ← append_assoc line (c ∷ []) (pending r'),
            suc_both n k,
          )
          rest
  ]
]
  where
    suc_both : (n k : ℕ) → n + suc k ≡ n + 1 + k
    suc_both n k = omega arith

-- With room for more than nothing, `Readline` on a stream that is closed in the end returns: the bytes of
-- the line and what is still pending are what was pending, and the line ends with its only newline and
-- its length is returned; or it has no newline, nothing is left, and its length is returned; or it has no
-- newline and there was no room for more, and one more than its length is returned.
pub readline_lem :
    (maxlen : ℕ) (r : Reader)
    → 0 < maxlen
    → Closes r.arrivals
    → (l : Line) × (readline maxlen r ≡ some l)
      × (pending r ≡ l.line ++ pending l.reader)
      × Closes l.reader.arrivals
      × Ends maxlen l
unfolding readline
readline_lem maxlen r h k =
    subst (λ m. ReadsLine m (pending r) (readline_loop (maxlen - 1) 1 [] r)) whole
      (readline_loop-ReadsLine (maxlen - 1) 1 [] r k tt refl)
  where
    whole : 1 + (maxlen - 1) ≡ maxlen
    whole = omega arith
