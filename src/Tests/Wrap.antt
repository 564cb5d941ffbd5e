-- ===== src/Tests/Wrap.antt =====
-- Runs of the reads and writes of Linux_Net/Reactor/wrap.c.
use learning_cpp.Prelude.{◌≡◌, refl, arith, none, some, List, [], ◌∷◌, ◌++◌}
use learning_cpp.Wrap.{
  Arrival, Received, readn, readn_loop, Taking, Sent, writen, writen_loop, Reader, refill, my_read,
  Line, readline, readline_loop,
}
use learning_cpp.Wrap.Lines.{content, Closes, pending, Ends, readline_lem}
use learning_cpp.Wrap.Exchange.{sent, readn-writen}

-- `ab`, an interruption, `c`, the newline and `d`, and the end.
abbrev arrived : List Arrival
arrived =
    Arrival.arrives (97 ∷ 98 ∷ [])
    ∷ Arrival.interrupted
    ∷ Arrival.arrives (99 ∷ 10 ∷ 100 ∷ [])
    ∷ Arrival.arrives []
    ∷ []

abbrev reader : Reader
reader = record { read_buf = []; arrivals = arrived }

-- The caller has room for two bytes, and is told of three.
readline-no_room :
    readline 3 reader
    ≡ some (record {
      line = 97 ∷ 98 ∷ [];
      result = some 3;
      reader = record {
        read_buf = [];
        arrivals =
            Arrival.interrupted ∷ Arrival.arrives (99 ∷ 10 ∷ 100 ∷ []) ∷ Arrival.arrives [] ∷ [];
      };
    })
unfolding readline readline_loop my_read refill
readline-no_room = refl

readline-newline :
    readline 20 reader
    ≡ some (record {
      line = 97 ∷ 98 ∷ 99 ∷ 10 ∷ [];
      result = some 4;
      reader = record { read_buf = 100 ∷ []; arrivals = Arrival.arrives [] ∷ [] };
    })
unfolding readline readline_loop my_read refill
readline-newline = refl

-- A call that takes nothing fails, and one that has no answer blocks.
writen-nothing :
    writen (1 ∷ 2 ∷ []) (Taking.takes 1 ∷ Taking.takes 0 ∷ [])
    ≡ some (record { pieces = (1 ∷ []) ∷ []; result = none })
unfolding writen writen_loop
writen-nothing = refl

readn-blocks : readn 3 (Arrival.arrives (97 ∷ []) ∷ []) ≡ none
unfolding readn readn_loop
readn-blocks = refl

readline_lem_example :
    (l : Line) × (readline 20 reader ≡ some l)
    × (pending reader ≡ l.line ++ pending l.reader)
    × Closes l.reader.arrivals
    × Ends 20 l
unfolding Closes
readline_lem_example = readline_lem 20 reader (omega arith) tt

-- The three bytes before the newline, sent as two and one.
abbrev sent_line : Sent
sent_line = record { pieces = (97 ∷ 98 ∷ []) ∷ (99 ∷ []) ∷ []; result = some 3 }

readn-writen_example :
    (sent_line.result ≡ some 3)
    × (g : Received) × (readn 3 arrived ≡ some g)
    × (g.bytes ≡ 97 ∷ 98 ∷ 99 ∷ [])
    × (g.result ≡ some 3)
    × (content g.rest ≡ 10 ∷ 100 ∷ [])
unfolding writen writen_loop content Closes sent
readn-writen_example =
    readn-writen (97 ∷ 98 ∷ 99 ∷ []) (10 ∷ 100 ∷ [])
      (Taking.takes 2 ∷ Taking.interrupted ∷ Taking.takes 4 ∷ []) arrived sent_line refl refl tt
      refl
