-- ===== src/EpollServer/Buffer.antt =====
-- The buffer of Linux_Net/04.使用epoll函数提高服务器处理能力/server.cpp: a text and zeros behind it.
use learning_cpp.Prelude.{
  All-append, ℕ, zero, suc, ◌+◌, ◌-◌, ◌<◌, ◌==◌, ◌≡◌, refl, sym, ap, ◌∙◌, arith, false, some,
  Option-cases, inl, inr, [], ◌∷◌, ◌++◌, append_assoc, Bytes, All, length, length-append,
  length-drop, drop,
}
use learning_cpp.EpollServer.{
  maxsize, Interest, Server, modify_event, zeros, text_of, filled, do_read,
}

-- A text without a NUL.
abbrev pub Plain : Bytes → Type 0
Plain = All (λ c. (c == 0) ≡ false)

-- The bytes of a client, over what is there.
abbrev pub overlay : Bytes → Bytes → Bytes
overlay bytes text = bytes ++ drop (length bytes) text

text_of-append : (text rest : Bytes) → Plain text → text_of (text ++ (0 ∷ rest)) ≡ some text
unfolding text_of
text_of-append [] rest h = refl
text_of-append (c ∷ text) rest h = ground (arith, text_of-append text rest)

Plain-drop : (n : ℕ) (text : Bytes) → Plain text → Plain (drop n text)
Plain-drop zero text h = h
Plain-drop (suc n) [] h = tt
Plain-drop (suc n) (c ∷ text) h = Plain-drop n text h.1

-- The buffer has a text and zeros behind it.
pub record IsClean (s : Server) (text : Bytes) : Type 0 where
  pub plain : Plain text
  pub fits : length text < maxsize
  pub is_buf : s.buf ≡ text ++ zeros (maxsize - length text)

drop-zeros : (n m : ℕ) → drop n (zeros m) ≡ zeros (m - n)
drop-zeros zero m = ap zeros (omega arith)
drop-zeros (suc n) zero = let none_left : 0 ≡ 0 - suc n = omega arith in ap zeros none_left
drop-zeros (suc n) (suc m) = drop-zeros n m ∙ ap zeros (omega arith)

drop-text :
    (n : ℕ) (text : Bytes) (m : ℕ)
    → drop n (text ++ zeros m) ≡ drop n text ++ zeros (m - (n - length text))
drop-text zero text m = ap (λ k. text ++ zeros k) (omega arith)
drop-text (suc n) [] m = drop-zeros (suc n) m ∙ ap zeros (omega arith)
drop-text (suc n) (c ∷ text) m = drop-text n text m ∙ ap (λ k. drop n text ++ zeros k) (omega arith)

zeros_some : (n : ℕ) → 0 < n → zeros n ≡ 0 ∷ zeros (n - 1)
zeros_some zero h = absurd (omega arith)
zeros_some (suc n) h = ap (λ k. 0 ∷ zeros k) (omega arith)

pub text_of-IsClean : (s : Server) (text : Bytes) → IsClean s text → text_of s.buf ≡ some text
text_of-IsClean s text h =
    ap text_of
      (h.is_buf ∙ ap (λ z. text ++ z) (zeros_some (maxsize - length text) (omega (arith, h.fits))))
    ∙ text_of-append text (zeros (maxsize - length text - 1)) h.plain

length-overlay :
    (bytes text : Bytes) → length (overlay bytes text) ≡ length bytes + (length text - length bytes)
length-overlay bytes text =
    omega (arith, length-append bytes (drop (length bytes) text), length-drop (length bytes) text)

IsClean-filled :
    (s : Server) (text bytes : Bytes)
    → IsClean s text
    → Plain bytes
    → length bytes < maxsize
    → IsClean (filled bytes s) (overlay bytes text)
IsClean-filled s text bytes h p b = record {
  plain =
      All-append (λ c. (c == 0) ≡ false) bytes (drop (length bytes) text) p
        (Plain-drop (length bytes) text h.plain);
  fits = omega (arith, length-overlay bytes text, h.fits, b);
  is_buf =
      ap (λ z. bytes ++ drop (length bytes) z) h.is_buf
      ∙ ap (λ z. bytes ++ z) (drop-text (length bytes) text (maxsize - length text))
      ∙ sym (append_assoc bytes (drop (length bytes) text) _)
      ∙ ap (λ k. overlay bytes text ++ zeros k)
          (omega (arith, length-overlay bytes text, h.fits, b));
}

buf-modify_event : (fd : ℕ) (state : Interest) (s : Server) → (modify_event fd state s).buf ≡ s.buf
unfolding modify_event
buf-modify_event fd state s = elim (Option-cases (s.registered fd)) [
  | inl e ↦ rw (modify_event, e) refl
  | inr (old, e) ↦ rw (modify_event, e) refl
]

pub sent-modify_event :
    (fd : ℕ) (state : Interest) (s : Server) → (modify_event fd state s).sent ≡ s.sent
unfolding modify_event
sent-modify_event fd state s = elim (Option-cases (s.registered fd)) [
  | inl e ↦ rw (modify_event, e) refl
  | inr (old, e) ↦ rw (modify_event, e) refl
]

-- Bytes that `read` may give, without a NUL, and not a whole buffer.
pub record IsMessage (bytes : Bytes) : Type 0 where
  pub some_bytes : 0 < length bytes
  pub fits : length bytes < maxsize
  pub plain : Plain bytes

pub do_read-IsClean :
    (fd : ℕ) (bytes text : Bytes) (s : Server)
    → IsMessage bytes
    → IsClean s text
    → (s' : Server) × (do_read fd (some bytes) s ≡ some s')
      × IsClean s' (overlay bytes text)
      × (s'.sent ≡ s.sent)
unfolding do_read
do_read-IsClean fd [] text s m h = absurd (omega (arith, m.some_bytes))
do_read-IsClean fd (c ∷ cs) text s m h =
    let clean = IsClean-filled s text (c ∷ cs) h m.plain m.fits in
    (
      modify_event fd Interest.epollout (filled (c ∷ cs) s),
      rw (do_read, text_of-IsClean (filled (c ∷ cs) s) (overlay (c ∷ cs) text) clean) refl,
      record {
        plain = clean.plain;
        fits = clean.fits;
        is_buf = buf-modify_event fd Interest.epollout (filled (c ∷ cs) s) ∙ clean.is_buf;
      },
      sent-modify_event fd Interest.epollout (filled (c ∷ cs) s),
    )
