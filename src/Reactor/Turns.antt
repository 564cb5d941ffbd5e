-- ===== src/Reactor/Turns.antt =====
-- Turns of the loop of Linux_Net/Reactor/02_epoll_loop.c, from the start of the program on.
use learning_cpp.Prelude.{
  ℕ, zero, suc, ◌+◌, ◌-◌, ◌<◌, ◌≤◌, leb, ◌≡◌, refl, arith, true, inl, inr, Bool-cases, none, some,
  List, [], ◌∷◌,
}
use learning_cpp.Reactor.{
  Events, Callback, Call, Loop, Turn, max_events, call, eventdel, wrapped, check_one, check_idle,
  turn, turns, zeroed, initlistensocket,
}
use learning_cpp.Reactor.Slots.{eventdel_on, eventadd-eventset, set_at_self, set_at_ne}
use learning_cpp.Reactor.Conserved.{Sound, times, live, live_below}
use learning_cpp.Reactor.Safe.{closed-Ran}
use learning_cpp.Reactor.Runs.{Reported, dispatched_all}

moved-Sound :
    (pos : ℕ) (s : Loop) → pos ≤ max_events → Sound s → Sound (record s { checkpos = pos })
moved-Sound pos s h k = record {
  talks = k.talks;
  listens = k.listens;
  position = h;
  conserved = k.conserved;
}

module _ (now : ℕ) where
  closing-Sound :
      (pos : ℕ) (s : Loop)
      → pos < max_events
      → (s.g_events pos).status ≡ true
      → Sound s
      → Sound (eventdel pos (call (Call.closed (s.g_events pos).fd) s))
  unfolding times
  closing-Sound pos s h on k =
      let fd = (s.g_events pos).fd in
      rw (eventdel_on pos (call (Call.closed fd) s) on)
        (closed-Ran pos s h k (Call.control_del fd ∷ Call.closed fd ∷ []) (λ f. ground arith)).sound

  check_one-Sound : (s : Loop) → Sound s → Sound (check_one now s)
  unfolding check_one
  check_one-Sound s k =
      let pos = wrapped s.checkpos in
      let below : pos < max_events = ground (arith, k.position) in
      let next : pos + 1 ≤ max_events = omega (arith, below) in
      elim (Bool-cases (s.g_events pos).status) [
        | inr off ↦ rw (check_one, off) (moved-Sound (pos + 1) s next k)
        | inl on ↦ elim (Bool-cases (leb 60 (now - (s.g_events pos).last_active))) [
          | inr active ↦ rw (check_one, on, active) (moved-Sound (pos + 1) s next k)
          | inl idle ↦
              rw (check_one, on, idle)
                (moved-Sound (pos + 1) _ next (closing-Sound pos s below on k))
        ]
      ]

  check_idle-Sound : (n : ℕ) (s : Loop) → Sound s → Sound (check_idle n now s)
  unfolding check_idle
  check_idle-Sound zero s k = k
  check_idle-Sound (suc n) s k = check_idle-Sound n (check_one now s) (check_one-Sound s k)

-- `epoll_wait` reports in every turn what it may report after the idle connections are closed.
abbrev pub Follows : List Turn → Loop → Type 0
Follows [] s = Unit
Follows (t ∷ ts) s =
    Reported (check_idle 100 t.clock s) t.ready
    × (elim (turn t s) [ none ↦ Unit | some s' ↦ Follows ts s' ])

turns-Sound :
    (ts : List Turn) (s : Loop)
    → Sound s
    → Follows ts s
    → (s' : Loop) × (turns ts s ≡ some s') × Sound s'
unfolding turns turn
turns-Sound [] s k h = (s, refl, k)
turns-Sound (t ∷ ts) s k h =
    let (s1, made, sound, _) =
      dispatched_all t.ready (check_idle 100 t.clock s) (check_idle-Sound t.clock 100 s k) h.0 in
    let (s2, rest, ends) = turns-Sound ts s1 sound (rw made at h.1) in
    (s2, rw (made, turns) rest, ends)

live-zeroed : (f n : ℕ) → live f n zeroed.g_events ≡ 0
unfolding live
live-zeroed f zero = refl
live-zeroed f (suc n) = ground (arith, live-zeroed f n)

pub initlistensocket-Sound : (lfd now : ℕ) → Sound (initlistensocket lfd now zeroed)
unfolding initlistensocket times
initlistensocket-Sound lfd now =
    rw (eventadd-eventset max_events zeroed lfd Callback.to_acceptconn Events.epollin now) (record {
      talks = λ i below on.
          absurd
            (ground (arith, rw (set_at_ne max_events i _ zeroed.g_events (ground arith)) at on));
      listens = rw set_at_self (refl, refl, refl);
      position = omega arith;
      conserved = λ f. omega (
        arith,
        live-zeroed f max_events,
        live_below f max_events _ zeroed.g_events max_events (omega arith),
      );
    })

-- From the start of the program on, for every sequence of turns in which `epoll_wait` reports watched
-- elements only, each of them once, and `recv` gives less than 4096 bytes: no callback is null and
-- nothing is written behind a buffer, every watched connection waits to be read by `recvdata` or to
-- be written by `senddata`, the listening element waits for `acceptconn`, and every descriptor was
-- accepted as often as it was closed, given up, or is still watched.
pub turns-conserved :
    (lfd now : ℕ) (ts : List Turn)
    → Follows ts (initlistensocket lfd now zeroed)
    → (s : Loop) × (turns ts (initlistensocket lfd now zeroed) ≡ some s) × Sound s
turns-conserved lfd now ts h =
    turns-Sound ts (initlistensocket lfd now zeroed) (initlistensocket-Sound lfd now) h
