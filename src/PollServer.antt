-- ===== src/PollServer.antt =====
-- Linux_Net/03.使用poll函数提高服务器处理能力/server.cpp, an echo server on poll. What the system answers in a
-- turn is an input, and the calls that it is given are recorded.
pub mod Forgotten
use learning_cpp.Prelude.{
  ℕ, zero, suc, ◌+◌, ◌-◌, ltb, leb, Bool, true, false, Option, none, some, if◌then◌else◌, List, [],
  ◌∷◌, ◌++◌, Bytes,
}

abbrev pub open_max : ℕ
open_max = 3

-- The descriptors of `clientfds` from index 1 on, of which `none` is -1, and `maxi`.
pub record Clients : Type 0 where
  pub fds : List (Option ℕ)
  pub maxi : ℕ

-- A descriptor, an interruption, or another error.
pub data Accepted : Type 0 where
  connected : ℕ → Accepted
  interrupted failed : Accepted

-- What poll, accept and the reads answer. `none` is -1; no bytes are the end of the file.
pub record Answers : Type 0 where
  pub nready : Option ℕ
  pub is_listen_ready : Bool
  pub accepted : Accepted
  pub is_ready : ℕ → Bool
  pub bytes : ℕ → Option Bytes

-- A write of `none` has the length -1.
pub data Call : Type 0 where
  read_from closed : ℕ → Call
  write_to : ℕ → Option Bytes → Call

-- `exit(1)`, or the next turn, with the calls.
pub data Outcome : Type 0 where
  exits : Outcome
  goes : Clients → List Call → Outcome

-- `connfd` after line 72: the result of the comparison, since `==` binds more than `=`.
abbrev pub connfd : Accepted → ℕ
connfd (Accepted.connected fd) = 0
connfd Accepted.interrupted = 1
connfd Accepted.failed = 1

-- The loop over the free places, at place `i`: where the client is put, or `none` if there is no place.
unfoldable pub add_client : ℕ → ℕ → List (Option ℕ) → Option (ℕ × List (Option ℕ))
add_client fd i [] = none
add_client fd i (none ∷ fds) = some (i, some fd ∷ fds)
add_client fd i (some old ∷ fds) = elim (add_client fd (i + 1) fds) [
  | none ↦ none
  | some (j, fds') ↦ some (j, some old ∷ fds')
]

-- What is done for a client that is ready: the descriptor that stays, and the calls.
abbrev pub serve_one : ℕ → Option Bytes → Option ℕ × List Call
serve_one fd (some []) = (none, Call.read_from fd ∷ Call.closed fd ∷ [])
serve_one fd none = (some fd, Call.read_from fd ∷ Call.write_to 1 none ∷ Call.write_to fd none ∷ [])
serve_one fd (some (c ∷ cs)) = (
  some fd,
  Call.read_from fd ∷ Call.write_to 1 (some (c ∷ cs)) ∷ Call.write_to fd (some (c ∷ cs)) ∷ [],
)

-- The loop over the clients up to `maxi`, with `n` to go at place `i`.
unfoldable pub serve : ℕ → ℕ → Answers → List (Option ℕ) → List (Option ℕ) × List Call
serve zero i a fds = (fds, [])
serve (suc n) i a [] = ([], [])
serve (suc n) i a (none ∷ fds) = let (rest, calls) = serve n (i + 1) a fds in (none ∷ rest, calls)
serve (suc n) i a (some fd ∷ fds) =
    let (rest, calls) = serve n (i + 1) a fds in
    let (kept, own) = serve_one fd (a.bytes i) in
    if a.is_ready i then (kept ∷ rest, own ++ calls) else (some fd ∷ rest, calls)

abbrev pub serve_all : Answers → Clients → Outcome
serve_all a c =
    let (fds, calls) = serve c.maxi 1 a c.fds in Outcome.goes (record c { fds = fds }) calls

-- After a connection: the rest of the turn, unless it was the only descriptor that was ready.
abbrev pub after_client : ℕ → Answers → Clients → Option (ℕ × List (Option ℕ)) → Outcome
after_client nready a c none = Outcome.exits
after_client nready a c (some (i, fds)) =
    let c' : Clients = record { fds = fds; maxi = if ltb c.maxi i then i else c.maxi } in
    if leb nready 1 then Outcome.goes c' [] else serve_all a c'

unfoldable pub accept_client : ℕ → Answers → Clients → Accepted → Outcome
accept_client nready a c Accepted.interrupted = Outcome.goes c []
accept_client nready a c Accepted.failed = Outcome.exits
accept_client nready a c (Accepted.connected fd) =
    after_client nready a c (add_client (connfd (Accepted.connected fd)) 1 c.fds)

abbrev pub after_poll : Answers → Clients → Option ℕ → Outcome
after_poll a c none = Outcome.exits
after_poll a c (some nready) =
    if a.is_listen_ready then accept_client nready a c a.accepted else serve_all a c

-- A turn of `do_poll`.
unfoldable pub turn : Answers → Clients → Outcome
turn a c = after_poll a c a.nready

-- All turns, with all calls; after an exit there is no other.
unfoldable pub do_poll : List Answers → Clients → Outcome
do_poll [] c = Outcome.goes c []
do_poll (a ∷ more) c = elim (turn a c) [
  | exits ↦ Outcome.exits
  | Outcome.goes c' calls ↦ elim (do_poll more c') [
    | exits ↦ Outcome.exits
    | Outcome.goes c'' others ↦ Outcome.goes c'' (calls ++ others)
  ]
]

abbrev pub no_fds : ℕ → List (Option ℕ)
no_fds zero = []
no_fds (suc n) = none ∷ no_fds n

-- `do_poll` up to its loop.
abbrev pub start : Clients
start = record { fds = no_fds (open_max - 1); maxi = 0 }
