-- ===== src/Reactor/Conserved.antt =====
-- The states of Linux_Net/Reactor/02_epoll_loop.c, and where the descriptors of its connections are.
use learning_cpp.Prelude.{
  ℕ, zero, suc, ◌+◌, ◌<◌, ◌≤◌, ◌==◌, ◌≡◌, ◌≢◌, refl, arith, Bool, true, false, ◌&&◌, ◌⊎◌, inl, inr,
  Bool-cases, if◌then◌else◌, List, [], ◌∷◌, ◌++◌,
}
use learning_cpp.Reactor.{MyEvent, Events, Callback, Call, Loop, set_at, max_events}
use learning_cpp.Reactor.Slots.{with_slot, set_at_self, set_at_ne}

abbrev pub is_accepted : ℕ → Call → Bool
is_accepted f (Call.accepted g) = g == f
is_accepted f c = false

abbrev pub is_closed : ℕ → Call → Bool
is_closed f (Call.closed g) = g == f
is_closed f c = false

abbrev pub is_given_up : ℕ → Call → Bool
is_given_up f (Call.given_up g) = g == f
is_given_up f c = false

-- How many of the calls pass a test.
unfoldable pub times : (Call → Bool) → List Call → ℕ
times p [] = 0
times p (c ∷ cs) = let rest = times p cs in if p c then suc rest else rest

pub times-append :
    (p : Call → Bool) (xs ys : List Call) → times p (xs ++ ys) ≡ times p xs + times p ys
unfolding times
times-append p [] ys = omega arith
times-append p (x ∷ xs) ys = ground (arith, times-append p xs ys)

abbrev pub live_at : ℕ → MyEvent → ℕ
live_at f ev = if ev.status && ev.fd == f then 1 else 0

-- How many of the first `n` elements are watched and have the descriptor `f`.
unfoldable pub live : ℕ → ℕ → (ℕ → MyEvent) → ℕ
live f zero g = 0
live f (suc n) g = live_at f (g n) + live f n g

module _ (f i : ℕ) (ev : MyEvent) (g : ℕ → MyEvent) where
  pub live_below : (n : ℕ) → n ≤ i → live f n (set_at i ev g) ≡ live f n g
  unfolding live
  live_below zero h = refl
  live_below (suc n) h = ground (arith, live_below n, set_at_ne i n ev g)

  live-set_at :
      (n : ℕ) → i < n → live f n (set_at i ev g) + live_at f (g i) ≡ live f n g + live_at f ev
  unfolding live
  live-set_at zero h = absurd (omega arith)
  live-set_at (suc n) h = elim (Bool-cases (i == n)) [
    | inl e ↦
        let here : i ≡ n = ground arith in
        rw (← here, live_below i (omega arith), set_at_self) (omega arith)
    | inr e ↦
        let below : i < n = ground arith in ground (arith, live-set_at n below, set_at_ne i n ev g)
  ]

-- The element of a connection that is watched: it is read next, or written.
abbrev pub Talks : ℕ → MyEvent → Type 0
Talks i ev =
    (ev.arg ≡ i)
    × (((ev.call_back ≡ Callback.to_recvdata) × (ev.events ≡ Events.epollin))
        ⊎ ((ev.call_back ≡ Callback.to_senddata) × (ev.events ≡ Events.epollout)))

-- The last element, the listening socket's.
abbrev pub Listens : MyEvent → Type 0
Listens ev =
    (ev.status ≡ true) × (ev.call_back ≡ Callback.to_acceptconn) × (ev.events ≡ Events.epollin)

-- Every descriptor that was accepted has been closed, or given up, or is watched.
abbrev pub Conserved : Loop → Type 0
Conserved s =
    (f : ℕ)
    → times (is_accepted f) s.calls
      ≡ times (is_closed f) s.calls + times (is_given_up f) s.calls + live f max_events s.g_events

-- Between two calls of a callback.
pub record Sound (s : Loop) : Type 0 where
  pub talks : (i : ℕ) → i < max_events → (s.g_events i).status ≡ true → Talks i (s.g_events i)
  pub listens : Listens (s.g_events max_events)
  pub position : s.checkpos ≤ max_events
  pub conserved : Conserved s

-- A change of an element that the calls account for.
abbrev pub Accounts : List Call → MyEvent → MyEvent → Type 0
Accounts calls old new =
    (f : ℕ)
    → times (is_accepted f) calls + live_at f old
      ≡ times (is_closed f) calls + times (is_given_up f) calls + live_at f new

module _ (i : ℕ) (ev : MyEvent) (calls : List Call) (s : Loop) (h : i < max_events) where
  pub with_slot-Sound :
      (ev.status ≡ true → Talks i ev)
      → Accounts calls (s.g_events i) ev
      → Sound s
      → Sound (with_slot i ev calls s)
  with_slot-Sound talks accounts k = record {
    talks = talking;
    listens = rw (set_at_ne i max_events ev s.g_events (omega arith)) k.listens;
    position = k.position;
    conserved = conserving;
  }
    where
      talking :
          (j : ℕ)
          → j < max_events
          → (set_at i ev s.g_events j).status ≡ true
          → Talks j (set_at i ev s.g_events j)
      talking j below on = elim (Bool-cases (j == i)) [
        | inl e ↦
            let here : j ≡ i = ground arith in
            rw (here, set_at_self) (talks (rw (here, set_at_self) at on))
        | inr e ↦
            let away : j ≢ i = ground arith in
            rw (set_at_ne i j ev s.g_events away)
              (k.talks j below (rw (set_at_ne i j ev s.g_events away) at on))
      ]

      conserving : Conserved (with_slot i ev calls s)
      conserving f =
          rw
            (
              times-append (is_accepted f) calls s.calls,
              times-append (is_closed f) calls s.calls,
              times-append (is_given_up f) calls s.calls,
            )
            (omega (arith, accounts f, k.conserved f, live-set_at f i ev s.g_events max_events h))
