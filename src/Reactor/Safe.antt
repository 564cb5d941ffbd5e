-- ===== src/Reactor/Safe.antt =====
-- The callbacks of Linux_Net/Reactor/02_epoll_loop.c keep a state sound.
use learning_cpp.Prelude.{
  ℕ, ◌+◌, ◌<◌, ◌==◌, ◌≡◌, ◌≢◌, refl, arith, true, false, ◌⊎◌, inl, inr, Bool-cases, Option-cases,
  none, some, List, [], ◌∷◌, ◌++◌, Bytes, length,
}
use learning_cpp.Reactor.{
  MyEvent, Events, Callback, Call, Loop, Answers, has_in, has_out, max_events, buflen, find_free,
  acceptconn, recvdata, senddata,
}
use learning_cpp.Reactor.Slots.{
  with_slot, watched, told, set_at_self, set_at_ne, recvdata_over, recvdata_bytes, senddata_some,
  senddata_none, find_free_le, find_free_unwatched, acceptconn-some,
}
use learning_cpp.Reactor.Conserved.{
  Sound, times-append, Talks, Accounts, with_slot-Sound, times, live_at, is_accepted, is_closed,
  is_given_up,
}

-- `s'` is sound, and the elements that were watched in `s` are what they were, but for `i`.
pub record Ran (i : ℕ) (s s' : Loop) : Type 0 where
  pub sound : Sound s'
  pub stays : (j : ℕ) → j ≢ i → (s.g_events j).status ≡ true → s'.g_events j ≡ s.g_events j

-- What is left to write on is watched.
abbrev pub NoStaleWrite : ℕ → Loop → Type 0
NoStaleWrite i s = ((s.g_events i).status ≡ true) ⊎ (has_out (s.g_events i).events ≡ false)

-- `recv` gives less than the buffer has room for.
abbrev pub IsShort : Answers → Type 0
IsShort a = (bytes : Bytes) → a.recv ≡ some bytes → length bytes < buflen

module _ (i : ℕ) (ev : MyEvent) (calls : List Call) (s : Loop) (h : i < max_events) where
  with_slot-Ran :
      (ev.status ≡ true → Talks i ev)
      → Accounts calls (s.g_events i) ev
      → Sound s
      → Ran i s (with_slot i ev calls s)
  with_slot-Ran talks accounts k = record {
    sound = with_slot-Sound i ev calls s h talks accounts k;
    stays = λ j away on. set_at_ne i j ev s.g_events away;
  }

module _ (i : ℕ) (s : Loop) (h : i < max_events) (k : Sound s) where
  pub closed-Ran :
      (calls : List Call)
      → ((f : ℕ)
          → (times (is_accepted f) calls ≡ 0)
            × (times (is_given_up f) calls ≡ 0)
            × (times (is_closed f) calls ≡ live_at f (s.g_events i)))
      → Ran i s (with_slot i (record (s.g_events i) { status = false }) calls s)
  closed-Ran calls counts =
      with_slot-Ran i _ calls s h (λ e. cc)
        (λ f. omega (arith, (counts f).0, (counts f).1, (counts f).2)) k

module _ (i : ℕ) (a : Answers) (s : Loop) (h : i < max_events) (k : Sound s)
    (on : (s.g_events i).status ≡ true) where
  pub recvdata-Ran :
      has_in (s.g_events i).events ≡ true
      → IsShort a
      → (s' : Loop) × (recvdata (s.g_events i).fd i a s ≡ some s') × Ran i s s' × NoStaleWrite i s'
  unfolding times
  recvdata-Ran reads short = elim (Option-cases a.recv) [
    | inl e ↦ over (inl e)
    | inr ([], e) ↦ over (inr e)
    | inr (c ∷ bytes, e) ↦ (
      _,
      recvdata_bytes i s on a (s.g_events i).fd c bytes e (short (c ∷ bytes) e),
      with_slot-Ran i _
          (Call.control_add (s.g_events i).fd ∷ Call.control_del (s.g_events i).fd ∷ []) s h
          (λ _. (refl, inr (refl, refl))) (λ f. ground arith) k,
      inl (rw set_at_self refl),
    )
  ]
    where
      over :
          (a.recv ≡ none) ⊎ (a.recv ≡ some [])
          → (s' : Loop) × (recvdata (s.g_events i).fd i a s ≡ some s')
            × Ran i s s'
            × NoStaleWrite i s'
      over e = (
        _,
        recvdata_over i s on a e,
        closed-Ran i s h k (Call.closed (s.g_events i).fd ∷ Call.control_del (s.g_events i).fd ∷ [])
            (λ f. ground arith),
        inr (rw set_at_self (ground arith)),
      )

  pub senddata-Ran : Ran i s (senddata (s.g_events i).fd i a s)
  unfolding times
  senddata-Ran = elim (Bool-cases (a.send == 0)) [
    | inl e ↦ rw (senddata_none i s on a (s.g_events i).fd (ground arith)) (
        closed-Ran i s h k (Call.control_del (s.g_events i).fd ∷ Call.closed (s.g_events i).fd ∷ [])
          (λ f. ground arith))
    | inr e ↦ rw (senddata_some i s on a (s.g_events i).fd (ground arith)) (
        with_slot-Ran i _
          (Call.control_add (s.g_events i).fd
            ∷ Call.control_del (s.g_events i).fd
            ∷ told i s on a (s.g_events i).fd
            ∷ [])
          s h (λ _. (refl, inl (refl, refl))) (λ f. ground arith) k)
  ]

-- Calls that leave the elements alone.
pub with_calls-Sound :
    (calls : List Call) (s : Loop)
    → ((f : ℕ)
        → times (is_accepted f) calls ≡ times (is_closed f) calls + times (is_given_up f) calls)
    → Sound s
    → Sound (record s { calls = calls ++ s.calls })
with_calls-Sound calls s accounts k = record {
  talks = k.talks;
  listens = k.listens;
  position = k.position;
  conserved = λ f.
      rw
        (
          times-append (is_accepted f) calls s.calls,
          times-append (is_closed f) calls s.calls,
          times-append (is_given_up f) calls s.calls,
        )
        (omega (arith, accounts f, k.conserved f));
}

given_up-Ran :
    (cfd : ℕ) (s : Loop)
    → Sound s
    → Ran max_events s (record s { calls = Call.given_up cfd ∷ Call.accepted cfd ∷ s.calls })
unfolding times
given_up-Ran cfd s k = record {
  sound = with_calls-Sound (Call.given_up cfd ∷ Call.accepted cfd ∷ []) s (λ f. ground arith) k;
  stays = λ j away on. refl;
}

pub acceptconn-Ran : (a : Answers) (s : Loop) → Sound s → Ran max_events s (acceptconn a s)
unfolding times acceptconn
acceptconn-Ran a s k = elim (Option-cases a.accept) [
  | inl e ↦ rw (e, acceptconn) (record { sound = k; stays = λ j away on. refl })
  | inr (cfd, e) ↦
      let i = find_free max_events 0 s.g_events in
      elim (Bool-cases (i == max_events)) [
        | inl full ↦ rw (e, acceptconn, full) (given_up-Ran cfd s k)
        | inr free ↦ elim (Bool-cases a.fcntl) [
          | inl nonblocking ↦
              let away : i ≢ max_events = ground arith in
              let off = find_free_unwatched max_events 0 s.g_events away in
              let below : i < max_events =
                omega (arith, find_free_le max_events 0 s.g_events, away) in
              let r =
                with_slot-Ran i
                  (watched i s cfd Callback.to_recvdata Events.epollin a.now (s.g_events i))
                  (Call.control_add cfd ∷ Call.accepted cfd ∷ []) s below
                  (λ _. (refl, inl (refl, refl))) (λ f. ground (arith, off)) k in
              rw (acceptconn-some cfd a s e nonblocking away) (record {
                sound = r.sound;
                stays = λ j _ on. r.stays j (λ same. ground (arith, rw same at on)) on;
              })
          | inr blocking ↦ rw (e, acceptconn, free, blocking) (given_up-Ran cfd s k)
        ]
      ]
]
