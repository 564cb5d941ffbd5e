-- ===== src/Reactor/Slots.antt =====
-- What the callbacks of Linux_Net/Reactor/02_epoll_loop.c leave in the element that they are given.
use std.Path.{fun_ext}
use learning_cpp.Prelude.{
  ltb, ap, ◌∙◌, ℕ, zero, suc, ◌+◌, ◌<◌, ◌≤◌, ◌==◌, ◌≡◌, ◌≢◌, refl, arith, true, false, ◌⊎◌, inl,
  inr, Bool-cases, none, some, List, [], ◌∷◌, ◌++◌, Bytes, length, take, drop,
}
use learning_cpp.Reactor.{
  MyEvent, Events, Callback, Call, Loop, Answers, set_at, fill, put, call, eventset, eventadd,
  eventdel, find_free, max_events, buflen, acceptconn, recvdata, senddata,
}

module _ (i : ℕ) where
  pub set_at_self : (ev : MyEvent) (g : ℕ → MyEvent) → set_at i ev g i ≡ ev
  unfolding set_at
  set_at_self ev g = ground arith

  pub set_at_ne : (j : ℕ) (ev : MyEvent) (g : ℕ → MyEvent) → j ≢ i → set_at i ev g j ≡ g j
  unfolding set_at
  set_at_ne j ev g h = ground arith

  overwritten :
      (new old : MyEvent) (g : ℕ → MyEvent) (j : ℕ)
      → set_at i new (set_at i old g) j ≡ set_at i new g j
  unfolding set_at
  overwritten new old g j = ground arith

  -- The last write stays.
  pub set_at-set_at :
      (new old : MyEvent) (g : ℕ → MyEvent) → set_at i new (set_at i old g) ≡ set_at i new g
  set_at-set_at new old g = fun_ext (overwritten new old g)

-- A state with another element at `i`, and with more calls.
abbrev pub with_slot : ℕ → MyEvent → List Call → Loop → Loop
with_slot i ev calls s = record s { g_events = set_at i ev s.g_events; calls = calls ++ s.calls }

module _ (i : ℕ) (s : Loop) where
  pub eventdel_on :
      (s.g_events i).status ≡ true
      → eventdel i s
        ≡ with_slot i
            (record (s.g_events i) { status = false })
            (Call.control_del (s.g_events i).fd ∷ [])
            s
  unfolding eventdel
  eventdel_on h = rw h

  -- `eventset` and `eventadd` on an element, which stands outside the set before it.
  abbrev pub watched : ℕ → Callback → Events → ℕ → MyEvent → MyEvent
  watched fd call_back events now ev = record ev {
    fd = fd;
    events = events;
    arg = i;
    call_back = call_back;
    status = true;
    last_active = now;
  }

  pub eventadd-eventset :
      (fd : ℕ) (call_back : Callback) (events : Events) (now : ℕ)
      → eventadd events i (eventset i fd call_back now s)
        ≡ with_slot i (watched fd call_back events now (s.g_events i)) (Call.control_add fd ∷ []) s
  unfolding eventadd eventset
  eventadd-eventset fd call_back events now = rw (set_at_self, set_at-set_at)

module _ (i : ℕ) (s : Loop) (on : (s.g_events i).status ≡ true) (a : Answers) where
  pub recvdata_over :
      (a.recv ≡ none) ⊎ (a.recv ≡ some [])
      → recvdata (s.g_events i).fd i a s
        ≡ some (
            with_slot i
              (record (s.g_events i) { status = false })
              (Call.closed (s.g_events i).fd ∷ Call.control_del (s.g_events i).fd ∷ [])
              s)
  unfolding recvdata
  recvdata_over (inl e) = rw (e, eventdel_on i s on)
  recvdata_over (inr e) = rw (e, eventdel_on i s on)

  -- The element once the bytes are in its buffer.
  abbrev pub filled : Bytes → MyEvent
  filled bytes = record (s.g_events i) {
    status = false;
    len = length bytes;
    buf = bytes ++ 0 ∷ drop (suc (length bytes)) (s.g_events i).buf;
  }

  fill_short :
      (bytes : Bytes) (ev : MyEvent)
      → length bytes < buflen
      → fill bytes ev
        ≡ some
            (record ev { len = length bytes; buf = bytes ++ 0 ∷ drop (suc (length bytes)) ev.buf })
  unfolding fill
  fill_short bytes ev short = ground arith

  pub recvdata_bytes :
      (fd c : ℕ) (bytes : Bytes)
      → a.recv ≡ some (c ∷ bytes)
      → length (c ∷ bytes) < buflen
      → recvdata fd i a s
        ≡ some (
            with_slot i
              (watched i s fd Callback.to_senddata Events.epollout a.now (filled (c ∷ bytes)))
              (Call.control_add fd ∷ Call.control_del (s.g_events i).fd ∷ [])
              s)
  unfolding recvdata
  recvdata_bytes fd c bytes e short =
      let off_ev = record (s.g_events i) { status = false } in
      let off = with_slot i off_ev (Call.control_del (s.g_events i).fd ∷ []) s in
      rw
        (
          e,
          recvdata,
          eventdel_on i s on,
          set_at_self,
          fill_short (c ∷ bytes) off_ev short,
          eventdel_on i s on,
        )
        (ap some (
          eventadd-eventset i (put i (filled (c ∷ bytes)) off) fd Callback.to_senddata
            Events.epollout a.now
          ∙ rw (set_at_self, set_at-set_at, set_at-set_at) refl))

  abbrev pub told : ℕ → Call
  told fd = Call.sent fd (take a.send (take (s.g_events i).len (s.g_events i).buf))

  pub senddata_some :
      (fd : ℕ)
      → 0 < a.send
      → senddata fd i a s
        ≡ with_slot i
            (watched i s fd Callback.to_recvdata Events.epollin a.now
              (record (s.g_events i) { status = false }))
            (Call.control_add fd ∷ Call.control_del (s.g_events i).fd ∷ told fd ∷ [])
            s
  unfolding senddata eventdel
  senddata_some fd h =
      let some_sent : ltb 0 a.send ≡ true = ground arith in
      let off =
        with_slot i (record (s.g_events i) { status = false })
          (Call.control_del (s.g_events i).fd ∷ told fd ∷ []) s in
      rw (some_sent, on)
        (eventadd-eventset i off fd Callback.to_recvdata Events.epollin a.now
          ∙ rw (set_at_self, set_at-set_at) refl)

  pub senddata_none :
      (fd : ℕ)
      → a.send ≡ 0
      → senddata fd i a s
        ≡ with_slot i
            (record (s.g_events i) { status = false })
            (Call.control_del (s.g_events i).fd ∷ Call.closed (s.g_events i).fd ∷ [])
            s
  unfolding senddata eventdel
  senddata_none fd h = rw (h, on)

pub find_free_le : (n j : ℕ) (g : ℕ → MyEvent) → find_free n j g ≤ j + n
unfolding find_free
find_free_le zero j g = omega arith
find_free_le (suc n) j g = ground (arith, find_free_le n (j + 1) g)

pub find_free_unwatched :
    (n j : ℕ) (g : ℕ → MyEvent) → find_free n j g ≢ j + n → (g (find_free n j g)).status ≡ false
unfolding find_free
find_free_unwatched zero j g h = absurd (h (omega arith))
find_free_unwatched (suc n) j g h = elim (Bool-cases (g j).status) [
  | inl b ↦ rw b (find_free_unwatched n (j + 1) g (λ e. h (rw b (omega (arith, e)))))
  | inr b ↦ rw (b, b) refl
]

-- `acceptconn` where there is a free element and `fcntl` is right.
pub acceptconn-some :
    (cfd : ℕ) (a : Answers) (s : Loop)
    → a.accept ≡ some cfd
    → a.fcntl ≡ true
    → find_free max_events 0 s.g_events ≢ max_events
    → let i = find_free max_events 0 s.g_events in
      acceptconn a s
      ≡ with_slot i
          (watched i s cfd Callback.to_recvdata Events.epollin a.now (s.g_events i))
          (Call.control_add cfd ∷ Call.accepted cfd ∷ [])
          s
unfolding acceptconn
acceptconn-some cfd a s e nonblocking free =
    let i = find_free max_events 0 s.g_events in
    let found : i == max_events ≡ false = ground arith in
    rw (e, found, nonblocking)
      (eventadd-eventset i (call (Call.accepted cfd) s) cfd Callback.to_recvdata Events.epollin
        a.now)
