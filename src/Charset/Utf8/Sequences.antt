-- ===== src/Charset/Utf8/Sequences.antt =====
-- A text as a list of sequences, each a first byte with the bytes that continue it.
use learning_cpp.Prelude.{
  ℕ, zero, suc, ◌+◌, ◌≤◌, ◌<◌, ◌≡◌, ◌↔◌, ◌⊎◌, inl, inr, refl, ap, ◌∙◌, arith, true, some, List, [],
  ◌∷◌, ◌++◌, Bytes, All, length, Option-cases,
}
use learning_cpp.Charset.Utf8.{n_bytes, is_trail, advance, scan, is_utf8}

-- How long the sequence is that a byte begins.
abbrev pub Begins : ℕ → ℕ → Type 0
Begins c k =
    ((c < 128) × (k ≡ 1))
    ⊎ ((((192 ≤ c) × (c < 224)) × (k ≡ 2))
        ⊎ ((((224 ≤ c) × (c < 240)) × (k ≡ 3))
            ⊎ ((((240 ≤ c) × (c < 248)) × (k ≡ 4))
                ⊎ ((((252 ≤ c) × (c < 254)) × (k ≡ 6))
                    ⊎ (((248 ≤ c) × ((c < 252) ⊎ (254 ≤ c))) × (k ≡ 5))))))

abbrev pub IsTrail : ℕ → Type 0
IsTrail c = (128 ≤ c) × (c < 192)

-- A sequence is a first byte and the bytes behind it.
abbrev pub Sequence : Type 0
Sequence = ℕ × Bytes

abbrev pub IsSequence : Sequence → Type 0
IsSequence (c, cs) = Begins c (length cs + 1) × All IsTrail cs

abbrev pub text : List Sequence → Bytes
text [] = []
text ((c, cs) ∷ qs) = c ∷ (cs ++ text qs)

is_trail_lem : (c : ℕ) → (is_trail c ≡ true) ↔ IsTrail c
unfolding is_trail
is_trail_lem c = ground arith

-- `n` more bytes, and sequences.
scan-trails : (cs rest : Bytes) → All IsTrail cs → scan (length cs) (cs ++ rest) ≡ scan 0 rest
unfolding scan advance
scan-trails [] rest h = refl
scan-trails (c ∷ cs) rest h = ground (arith, is_trail_lem c, scan-trails cs rest h.1)

advance_first : (c n : ℕ) → Begins c (n + 1) → advance 0 c ≡ some n
unfolding advance n_bytes
advance_first c n b = ground arith

first_advance : (c n : ℕ) → advance 0 c ≡ some n → Begins c (n + 1)
unfolding advance n_bytes
first_advance c n e = ground arith

IsTrail-advance : (c n m : ℕ) → advance (suc n) c ≡ some m → IsTrail c × (m ≡ n)
unfolding advance
IsTrail-advance c n m e = (ground (arith, is_trail_lem c), ground arith)

scan-text : (qs : List Sequence) → All IsSequence qs → scan 0 (text qs) ≡ true
unfolding scan
scan-text [] h = refl
scan-text ((c, cs) ∷ qs) h =
    rw (scan, advance_first c (length cs) h.0.0) (scan-trails cs (text qs) h.0.1 ∙ scan-text qs h.1)

-- What `scan` accepts: `n` bytes that continue a sequence, and sequences.
record Accepted (n : ℕ) (str : Bytes) : Type 0 where
  behind : Bytes
  sequences : List Sequence
  str_is : str ≡ behind ++ text sequences
  length_is : length behind ≡ n
  trails : All IsTrail behind
  are : All IsSequence sequences

scan-Accepted : (str : Bytes) (n : ℕ) → scan n str ≡ true → Accepted n str
unfolding scan
scan-Accepted [] n e = record {
  behind = [];
  sequences = [];
  str_is = refl;
  length_is = ground arith;
  trails = tt;
  are = tt;
}
scan-Accepted (c ∷ str) zero e = elim (Option-cases (advance 0 c)) [
  | inl f ↦ absurd (ground arith)
  | inr (m, f) ↦
      let k = scan-Accepted str m (ground arith) in
      record {
        behind = [];
        sequences = (c, k.behind) ∷ k.sequences;
        str_is = ap (◌∷◌ c) k.str_is;
        length_is = refl;
        trails = tt;
        are = ((rw k.length_is (first_advance c m f), k.trails), k.are);
      }
]
scan-Accepted (c ∷ str) (suc n) e = elim (Option-cases (advance (suc n) c)) [
  | inl f ↦ absurd (ground arith)
  | inr (m, f) ↦
      let k = scan-Accepted str m (ground arith) in
      let (t, same) = IsTrail-advance c n m f in
      record {
        behind = c ∷ k.behind;
        sequences = k.sequences;
        str_is = ap (◌∷◌ c) k.str_is;
        length_is = ap suc (k.length_is ∙ same);
        trails = (t, k.trails);
        are = k.are;
      }
]

nil_of_length : (cs : Bytes) → length cs ≡ 0 → cs ≡ []
nil_of_length [] e = refl
nil_of_length (c ∷ cs) e = absurd (omega arith)

-- `_isUTF8_` accepts exactly the texts that are sequences one after the other: a byte below 128 alone,
-- or a first byte with as many bytes from 128 to 191 behind it as it asks for. A first byte from 192
-- on asks for 1, from 224 for 2, from 240 for 3, from 248 for 4, 252 and 253 for 5, and 254 and 255,
-- which no form of UTF-8 has, for 4.
pub is_utf8_iff :
    (str : Bytes)
    → (is_utf8 (some str) ≡ true) ↔ ((qs : List Sequence) × ((str ≡ text qs) × All IsSequence qs))
unfolding is_utf8
is_utf8_iff str = (accepts, λ (qs, (e, h)). rw e (scan-text qs h))
  where
    accepts : scan 0 str ≡ true → (qs : List Sequence) × ((str ≡ text qs) × All IsSequence qs)
    accepts e =
        let k = scan-Accepted str 0 e in
        (
          k.sequences,
          (k.str_is ∙ ap (λ b. b ++ text k.sequences) (nil_of_length k.behind k.length_is), k.are),
        )
