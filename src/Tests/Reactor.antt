-- ===== src/Tests/Reactor.antt =====
-- Linux_Net/Reactor/02_epoll_loop.c with one connection.
use learning_cpp.Prelude.{◌≡◌, refl, arith, true, false, Option, none, some, List, [], ◌∷◌, take}
use learning_cpp.Reactor.{
  Call, Loop, Answers, Ready, Turn, set_at, fill, eventset, eventadd, eventdel, find_free,
  acceptconn, recvdata, senddata, run_callback, dispatch, dispatch_all, check_one, check_idle, turn,
  turns, zeroed, initlistensocket, has_in,
}
use learning_cpp.Reactor.Conserved.{Sound}
use learning_cpp.Reactor.Safe.{IsShort, acceptconn-Ran}
use learning_cpp.Reactor.Runs.{Reported}
use learning_cpp.Reactor.Turns.{Follows, initlistensocket-Sound, turns-conserved}
use learning_cpp.Reactor.Echo.{echo}

program : Unit {0}
unfolding set_at fill eventset eventadd eventdel find_free acceptconn recvdata senddata run_callback
    dispatch dispatch_all check_one check_idle turn turns initlistensocket
program = tt

abbrev no_answer : Answers
no_answer = record { accept = none; fcntl = true; recv = none; send = 0; now = 1 }

abbrev connects : Ready
connects = record {
  slot = 1024;
  readable = true;
  writable = false;
  on_read = record no_answer { accept = some 7 };
  on_write = no_answer;
}

abbrev says_hi : Ready
says_hi = record {
  slot = 0;
  readable = true;
  writable = false;
  on_read = record no_answer { recv = some (104 ∷ 105 ∷ []) };
  on_write = no_answer;
}

abbrev takes_all : Ready
takes_all = record {
  slot = 0;
  readable = false;
  writable = true;
  on_read = no_answer;
  on_write = record no_answer { send = 2 };
}

abbrev conversation : List Turn
conversation =
    record { clock = 1; ready = connects ∷ [] }
    ∷ record { clock = 1; ready = says_hi ∷ [] }
    ∷ record { clock = 2; ready = takes_all ∷ [] }
    ∷ []

abbrev calls_of : Option Loop → List Call
calls_of none = []
calls_of (some s) = s.calls

-- The last call first.
conversation_calls :
    calls_of (turns conversation (initlistensocket 3 0 zeroed))
    ≡ Call.control_add 7
      ∷ Call.control_del 7
      ∷ Call.sent 7 (104 ∷ 105 ∷ [])
      ∷ Call.control_add 7
      ∷ Call.control_del 7
      ∷ Call.control_add 7
      ∷ Call.accepted 7
      ∷ Call.control_add 3
      ∷ []
unfolding program
conversation_calls = refl

no_bytes : IsShort no_answer
no_bytes bytes e = ground arith

few_bytes : IsShort says_hi.on_read
few_bytes bytes e = ground arith

conversation-Follows : Follows conversation (initlistensocket 3 0 zeroed)
unfolding program
conversation-Follows = (
  ((omega arith, refl, (λ bytes e. ground arith), no_bytes), tt, tt),
  (
    ((omega arith, refl, few_bytes, no_bytes), tt, tt),
    (((omega arith, refl, no_bytes, (λ bytes e. ground arith)), tt, tt), tt),
  ),
)

turns-conserved_example :
    (s : Loop) × (turns conversation (initlistensocket 3 0 zeroed) ≡ some s) × Sound s
turns-conserved_example = turns-conserved 3 0 conversation conversation-Follows

abbrev connected : Loop
connected = acceptconn connects.on_read (initlistensocket 3 0 zeroed)

connected-Sound : Sound connected
connected-Sound =
    (acceptconn-Ran connects.on_read (initlistensocket 3 0 zeroed)
      (initlistensocket-Sound 3 0)).sound

connected-Reported : Reported connected (says_hi ∷ [])
unfolding program
connected-Reported = ((omega arith, refl, few_bytes, no_bytes), tt, tt)

connected_reads : has_in (connected.g_events 0).events ≡ true
unfolding program
connected_reads = refl

echo_example :
    (s2 : Loop) × (dispatch_all (says_hi ∷ []) connected ≡ some s2)
    × (s3 : Loop) × (run_callback 0 takes_all.on_write s2 ≡ some s3)
    × (s3.calls
        ≡ Call.control_add (connected.g_events 0).fd
          ∷ Call.control_del (connected.g_events 0).fd
          ∷ Call.sent (connected.g_events 0).fd (take 2 (104 ∷ 105 ∷ []))
          ∷ s2.calls)
    × (has_in (s3.g_events 0).events ≡ true)
echo_example =
    echo connected says_hi [] 104 (105 ∷ []) takes_all.on_write connected-Sound connected-Reported
      (omega arith) connected_reads refl refl refl (omega arith)
