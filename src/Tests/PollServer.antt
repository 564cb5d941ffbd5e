-- ===== src/Tests/PollServer.antt =====
-- A client of Linux_Net/03.使用poll函数提高服务器处理能力/server.cpp.
use learning_cpp.Prelude.{◌≡◌, refl, true, false, none, some, List, [], ◌∷◌, codes}
use learning_cpp.PollServer.{
  Clients, Accepted, Answers, Call, Outcome, add_client, serve, accept_client, turn, do_poll, start,
}

program : Unit {0}
unfolding add_client serve accept_client turn do_poll
program = tt

-- A client connects as descriptor 5; then a text is typed.
abbrev connects : Answers
connects = record {
  nready = some 1;
  is_listen_ready = true;
  accepted = Accepted.connected 5;
  is_ready = λ i. false;
  bytes = λ i. none;
}

abbrev typed : Answers
typed = record {
  nready = some 1;
  is_listen_ready = false;
  accepted = Accepted.failed;
  is_ready = λ i. true;
  bytes = λ i. some (codes "x");
}

abbrev calls : List Call
calls =
    Call.read_from 0 ∷ Call.write_to 1 (some (codes "x")) ∷ Call.write_to 0 (some (codes "x")) ∷ []

abbrev after : Clients
after = record { fds = some 0 ∷ none ∷ []; maxi = 1 }

-- The third client ends the server.
third : do_poll (connects ∷ connects ∷ connects ∷ []) start ≡ Outcome.exits
unfolding program
third = refl
