-- ===== src/EpollServer/Shared.antt =====
-- What the clients of Linux_Net/04.使用epoll函数提高服务器处理能力/server.cpp are sent.
use learning_cpp.Prelude.{
  ℕ, zero, suc, ◌-◌, ◌≤◌, ◌==◌, ◌≡◌, refl, ap, ◌∙◌, arith, true, false, none, some, Bool-cases, inl,
  inr, List, [], ◌∷◌, ◌++◌, append_assoc, Bytes, All, length, take, map,
}
use learning_cpp.EpollServer.{
  maxsize, Interest, Server, Event, zeros, text_of, do_read, written, do_write, handle_event,
  handle_events,
}
use learning_cpp.EpollServer.Buffer.{
  overlay, IsClean, IsMessage, do_read-IsClean, text_of-IsClean, sent-modify_event,
}

-- A client's message, and a client that can be written to, which takes all that is offered.
abbrev pub reads : ℕ × Bytes → Event
reads (fd, bytes) = record {
  fd = fd;
  is_in = true;
  is_out = false;
  accepted = none;
  bytes = some bytes;
  wrote = none;
}

abbrev pub writes : ℕ → Event
writes fd = record {
  fd = fd;
  is_in = false;
  is_out = true;
  accepted = none;
  bytes = none;
  wrote = some maxsize;
}

-- All messages, each over those before.
unfoldable pub overlaid : List (ℕ × Bytes) → Bytes → Bytes
overlaid [] text = text
overlaid ((fd, bytes) ∷ messages) text = overlaid messages (overlay bytes text)

abbrev pub AllMessages : ℕ → List (ℕ × Bytes) → Type 0
AllMessages listenfd = All (λ (fd, bytes). ((fd == listenfd) ≡ false) × IsMessage bytes)

handle_events-cons :
    (listenfd : ℕ) (e : Event) (events : List Event) (s s' : Server)
    → handle_event listenfd e s ≡ some s'
    → handle_events listenfd (e ∷ events) s ≡ handle_events listenfd events s'
unfolding handle_events
handle_events-cons listenfd e events s s' h = rw (handle_events, h) refl

handle_event-reads :
    (listenfd fd : ℕ) (bytes : Bytes) (s : Server)
    → (fd == listenfd) ≡ false
    → handle_event listenfd (reads (fd, bytes)) s ≡ do_read fd (some bytes) s
unfolding handle_event
handle_event-reads listenfd fd bytes s h = rw (handle_event, h) refl

handle_events-reads :
    (listenfd : ℕ) (messages : List (ℕ × Bytes)) (more : List Event) (text : Bytes) (s : Server)
    → AllMessages listenfd messages
    → IsClean s text
    → (s' : Server) × (handle_events listenfd (map reads messages ++ more) s
        ≡ handle_events listenfd more s')
      × IsClean s' (overlaid messages text)
      × (s'.sent ≡ s.sent)
unfolding overlaid
handle_events-reads listenfd [] more text s m h = (s, refl, h, refl)
handle_events-reads listenfd ((fd, bytes) ∷ messages) more text s m h =
    let (mid, did, clean, same) = do_read-IsClean fd bytes text s m.0.1 h in
    let (s', rest, clean', same') =
      handle_events-reads listenfd messages more (overlay bytes text) mid m.1 clean in
    (
      s',
      handle_events-cons listenfd (reads (fd, bytes)) (map reads messages ++ more) s mid
            (handle_event-reads listenfd fd bytes s m.0.0 ∙ did)
          ∙ rest,
      clean',
      same' ∙ same,
    )

take_all : (n : ℕ) (text : Bytes) → length text ≤ n → take n text ≡ text
take_all zero [] h = refl
take_all (suc n) [] h = refl
take_all zero (c ∷ text) h = absurd (omega arith)
take_all (suc n) (c ∷ text) h = ap (◌∷◌ c) (take_all n text (omega arith))

IsClean-zeros : (s : Server) → s.buf ≡ zeros maxsize → IsClean s []
IsClean-zeros s e =
    let whole : maxsize ≡ maxsize - 0 = omega arith in
    record { plain = tt; fits = omega arith; is_buf = e ∙ ap zeros whole }

handle_event-writes :
    (listenfd fd : ℕ) (text : Bytes) (s : Server)
    → text_of s.buf ≡ some text
    → handle_event listenfd (writes fd) s
      ≡ some (record (written fd (some maxsize) text s) { buf = zeros maxsize })
unfolding handle_event do_write
handle_event-writes listenfd fd text s h = elim (Bool-cases (fd == listenfd)) [
  | inl e ↦ rw (handle_event, e, do_write, h) refl
  | inr e ↦ rw (handle_event, e, do_write, h) refl
]

handle_events-writes :
    (listenfd fd : ℕ) (events : List Event) (text : Bytes) (s : Server)
    → IsClean s text
    → (s' : Server) × (handle_events listenfd (writes fd ∷ events) s
        ≡ handle_events listenfd events s')
      × IsClean s' []
      × (s'.sent ≡ s.sent ++ (fd, text) ∷ [])
handle_events-writes listenfd fd events text s h =
    let s' = record (written fd (some maxsize) text s) { buf = zeros maxsize } in
    (
      s',
      handle_events-cons listenfd (writes fd) events s s'
          (handle_event-writes listenfd fd text s (text_of-IsClean s text h)),
      IsClean-zeros s' refl,
      sent-modify_event fd Interest.epollin
            (record s { sent = s.sent ++ (fd, take maxsize text) ∷ [] })
          ∙ ap (λ t. s.sent ++ (fd, t) ∷ []) (take_all maxsize text (omega (arith, h.fits))),
    )

-- On a buffer of zeros, messages of any clients without a NUL, each shorter than the buffer, and then two
-- clients to write to: the first is sent all the messages, each written over the ones before, whoever
-- they are from, and the second is sent nothing; and the buffer is zeros again. With one message, the
-- client that is written to next gets it as it is.
pub handle_events-overlaid :
    (listenfd a b : ℕ) (messages : List (ℕ × Bytes)) (s : Server)
    → AllMessages listenfd messages
    → s.buf ≡ zeros maxsize
    → (s' : Server) × (handle_events listenfd (map reads messages ++ (writes a ∷ writes b ∷ [])) s
        ≡ some s')
      × (s'.sent ≡ s.sent ++ (a, overlaid messages []) ∷ (b, []) ∷ [])
      × (s'.buf ≡ zeros maxsize)
unfolding handle_events
handle_events-overlaid listenfd a b messages s m e =
    let clean = IsClean-zeros s e in
    let (s1, did1, clean1, sent1) =
      handle_events-reads listenfd messages (writes a ∷ writes b ∷ []) [] s m clean in
    let (s2, did2, clean2, sent2) =
      handle_events-writes listenfd a (writes b ∷ []) (overlaid messages []) s1 clean1 in
    let whole : maxsize - 0 ≡ maxsize = omega arith in
    let (s3, did3, clean3, sent3) = handle_events-writes listenfd b [] [] s2 clean2 in
    (
      s3,
      did1 ∙ did2 ∙ did3,
      sent3
          ∙ ap (λ l. l ++ (b, []) ∷ [])
              (sent2 ∙ ap (λ l. l ++ (a, overlaid messages []) ∷ []) sent1)
          ∙ append_assoc s.sent ((a, overlaid messages []) ∷ []) ((b, []) ∷ []),
      clean3.is_buf ∙ ap zeros whole,
    )
