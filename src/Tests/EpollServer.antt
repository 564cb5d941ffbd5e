-- ===== src/Tests/EpollServer.antt =====
-- Two clients of Linux_Net/04.使用epoll函数提高服务器处理能力/server.cpp.
use learning_cpp.Prelude.{
  ℕ, ◌≡◌, refl, arith, false, true, none, some, List, [], ◌∷◌, ◌++◌, Bytes, codes, map,
}
use learning_cpp.EpollServer.{
  maxsize, Server, Event, zeros, start, modify_event, text_of, handle_accept, do_read, do_write,
  handle_event, handle_events, do_epoll_turns,
}
use learning_cpp.EpollServer.Shared.{reads, writes, overlaid, handle_events-overlaid}

program : Unit {0}
unfolding start modify_event text_of handle_accept do_read do_write handle_event handle_events
    do_epoll_turns overlaid
program = tt

abbrev accepts : ℕ → Event
accepts fd = record {
  fd = 3;
  is_in = true;
  is_out = false;
  accepted = some fd;
  bytes = none;
  wrote = none;
}

-- A whole buffer has no room for a NUL.
abbrev ones : ℕ → Bytes
ones ℕ.zero = []
ones (ℕ.suc n) = 1 ∷ ones n

whole_buffer : handle_events 3 (accepts 5 ∷ reads (5, ones maxsize) ∷ []) (start 3) ≡ none
unfolding program
whole_buffer = refl

abbrev two : List (ℕ × Bytes)
two = (5, codes "hello") ∷ (6, codes "by") ∷ []

mixed : overlaid two [] ≡ codes "byllo"
unfolding program
mixed = refl

handle_events-overlaid_example :
    (s : Server) × (handle_events 3 (map reads two ++ (writes 5 ∷ writes 6 ∷ [])) (start 3)
      ≡ some s)
    × (s.sent ≡ (start 3).sent ++ (5, overlaid two []) ∷ (6, []) ∷ [])
    × (s.buf ≡ zeros maxsize)
unfolding start
handle_events-overlaid_example =
    handle_events-overlaid 3 5 6 two (start 3)
      (
        (
          refl,
          record {
            some_bytes = omega arith;
            fits = omega arith;
            plain = (refl, (refl, (refl, (refl, (refl, tt)))));
          },
        ),
        (
          (
            refl,
            record { some_bytes = omega arith; fits = omega arith; plain = (refl, (refl, tt)) },
          ),
          tt,
        ),
      )
      refl
