-- ===== src/Reactor.antt =====
-- The echo server of Linux_Net/Reactor/02_epoll_loop.c. A pointer to an element of `g_events` is its
-- index, and what the system answers is an input: a `Turn` of the loop has the answers of its calls.
-- `none` is a fault: a write behind the end of `buf`, or a call of a null pointer.
pub mod Slots
pub mod Conserved
pub mod Safe
pub mod Runs
pub mod Turns
pub mod Echo
use learning_cpp.Prelude.{
  ℕ, zero, suc, ◌+◌, ◌-◌, leb, ltb, ◌==◌, Bool, true, false, not, ◌&&◌, Option, none, some,
  if◌then◌else◌, List, [], ◌∷◌, ◌++◌, Bytes, length, take, drop,
}

abbrev pub max_events : ℕ
max_events = 1024

abbrev pub buflen : ℕ
buflen = 4096

pub data Callback : Type 0 where
  null to_acceptconn to_recvdata to_senddata : Callback

-- The bits of a set of events that the program asks for.
pub data Events : Type 0 where
  nothing epollin epollout : Events

abbrev pub has_in : Events → Bool
has_in Events.epollin = true
has_in e = false

abbrev pub has_out : Events → Bool
has_out Events.epollout = true
has_out e = false

pub record MyEvent : Type 0 where
  pub fd : ℕ
  pub events : Events
  pub arg : ℕ
  pub call_back : Callback
  pub status : Bool
  pub buf : Bytes
  pub len : ℕ
  pub last_active : ℕ

-- The calls that change something outside, and the message that a connection is not taken.
pub data Call : Type 0 where
  accepted closed given_up : ℕ → Call
  sent : ℕ → Bytes → Call
  control_add control_mod control_del : ℕ → Call

-- `g_events`, `checkpos` and the calls so far, the last one first.
pub record Loop : Type 0 where
  pub g_events : ℕ → MyEvent
  pub checkpos : ℕ
  pub calls : List Call

unfoldable pub set_at : ℕ → MyEvent → (ℕ → MyEvent) → ℕ → MyEvent
set_at i ev g j = if j == i then ev else g j

abbrev pub put : ℕ → MyEvent → Loop → Loop
put i ev s = record s { g_events = set_at i ev s.g_events }

abbrev pub call : Call → Loop → Loop
call c s = record s { calls = c ∷ s.calls }

-- `eventset`, where `now` is what `time` says.
unfoldable pub eventset : ℕ → ℕ → Callback → ℕ → Loop → Loop
eventset i fd call_back now s =
    put i
      (record (s.g_events i) {
        fd = fd;
        call_back = call_back;
        events = Events.nothing;
        arg = i;
        status = false;
        last_active = now;
      })
      s

unfoldable pub eventadd : Events → ℕ → Loop → Loop
eventadd events i s =
    let ev = s.g_events i in
    let op = if ev.status then Call.control_mod ev.fd else Call.control_add ev.fd in
    call op (put i (record ev { events = events; status = true }) s)

unfoldable pub eventdel : ℕ → Loop → Loop
eventdel i s =
    let ev = s.g_events i in
    if not ev.status
    then s
    else call (Call.control_del ev.fd) (put i (record ev { status = false }) s)

-- The loop for a free element, with `n` elements to go.
unfoldable pub find_free : ℕ → ℕ → (ℕ → MyEvent) → ℕ
find_free zero i g = i
find_free (suc n) i g = let rest = find_free n (i + 1) g in if not (g i).status then i else rest

-- What the system answers to the calls of a callback: the descriptor of `accept`, if `fcntl` was
-- right, the bytes of `recv` (none at all if the peer has closed), how many bytes `send` has sent (0
-- for a failure), and the time.
pub record Answers : Type 0 where
  pub accept : Option ℕ
  pub fcntl : Bool
  pub recv : Option Bytes
  pub send : ℕ
  pub now : ℕ

unfoldable pub acceptconn : Answers → Loop → Loop
acceptconn a s = elim a.accept [
  | none ↦ s
  | some cfd ↦
      let taken = call (Call.accepted cfd) s in
      let i = find_free max_events 0 s.g_events in
      if i == max_events
      then call (Call.given_up cfd) taken
      else if not a.fcntl
      then call (Call.given_up cfd) taken
      else eventadd Events.epollin i (eventset i cfd Callback.to_recvdata a.now taken)
]

-- `ev->len = len; ev->buf[len] = 0`, after `recv` has filled the front of `buf`.
unfoldable pub fill : Bytes → MyEvent → Option MyEvent
fill bytes ev =
    if ltb (length bytes) buflen
    then some
        (record ev { len = length bytes; buf = bytes ++ 0 ∷ drop (suc (length bytes)) ev.buf })
    else none

unfoldable pub recvdata : ℕ → ℕ → Answers → Loop → Option Loop
recvdata fd arg a s =
    let ev = s.g_events arg in
    let off = eventdel arg s in
    elim a.recv [
      | none ↦ some (call (Call.closed ev.fd) off)
      | some [] ↦ some (call (Call.closed ev.fd) off)
      | some (c ∷ bytes) ↦ elim (fill (c ∷ bytes) (off.g_events arg)) [
        | none ↦ none
        | some filled ↦ some (
            eventadd Events.epollout arg
              (eventset arg fd Callback.to_senddata a.now (put arg filled off)))
      ]
    ]

unfoldable pub senddata : ℕ → ℕ → Answers → Loop → Loop
senddata fd arg a s =
    let ev = s.g_events arg in
    let told = call (Call.sent fd (take a.send (take ev.len ev.buf))) s in
    if ltb 0 a.send
    then eventadd Events.epollin arg
        (eventset arg fd Callback.to_recvdata a.now (eventdel arg told))
    else eventdel arg (call (Call.closed ev.fd) s)

-- `ev->call_back(ev->fd, events, ev->arg)`.
unfoldable pub run_callback : ℕ → Answers → Loop → Option Loop
run_callback i a s =
    let ev = s.g_events i in
    elim ev.call_back [
      | Callback.null ↦ none
      | Callback.to_acceptconn ↦ some (acceptconn a s)
      | Callback.to_recvdata ↦ recvdata ev.fd ev.arg a s
      | Callback.to_senddata ↦ some (senddata ev.fd ev.arg a s)
    ]

-- An element of `events` after `epoll_wait`, with the answers to the callbacks that it leads to.
pub record Ready : Type 0 where
  pub slot : ℕ
  pub readable : Bool
  pub writable : Bool
  pub on_read : Answers
  pub on_write : Answers

abbrev pub write_part : Ready → Loop → Option Loop
write_part r s =
    if r.writable && has_out (s.g_events r.slot).events
    then run_callback r.slot r.on_write s
    else some s

unfoldable pub dispatch : Ready → Loop → Option Loop
dispatch r s =
    if r.readable && has_in (s.g_events r.slot).events
    then elim (run_callback r.slot r.on_read s) [ none ↦ none | some s' ↦ write_part r s' ]
    else write_part r s

unfoldable pub dispatch_all : List Ready → Loop → Option Loop
dispatch_all [] s = some s
dispatch_all (r ∷ rs) s = elim (dispatch r s) [ none ↦ none | some s' ↦ dispatch_all rs s' ]

-- One turn of the loop over idle connections: the position that is looked at, and the next one.
abbrev pub wrapped : ℕ → ℕ
wrapped pos = if pos == max_events then 0 else pos

unfoldable pub check_one : ℕ → Loop → Loop
check_one now s =
    let pos = wrapped s.checkpos in
    let ev = s.g_events pos in
    let looked =
      if not ev.status
      then s
      else if leb 60 (now - ev.last_active)
      then eventdel pos (call (Call.closed ev.fd) s)
      else s in
    record looked { checkpos = pos + 1 }

unfoldable pub check_idle : ℕ → ℕ → Loop → Loop
check_idle zero now s = s
check_idle (suc n) now s = check_idle n now (check_one now s)

-- A turn of the loop of `main`.
pub record Turn : Type 0 where
  pub clock : ℕ
  pub ready : List Ready

unfoldable pub turn : Turn → Loop → Option Loop
turn t s = dispatch_all t.ready (check_idle 100 t.clock s)

unfoldable pub turns : List Turn → Loop → Option Loop
turns [] s = some s
turns (t ∷ ts) s = elim (turn t s) [ none ↦ none | some s' ↦ turns ts s' ]

-- The zeroed `g_events`.
abbrev pub zeroed : Loop
zeroed = record {
  g_events = λ i. record {
    fd = 0;
    events = Events.nothing;
    arg = 0;
    call_back = Callback.null;
    status = false;
    buf = [];
    len = 0;
    last_active = 0;
  };
  checkpos = 0;
  calls = [];
}

-- `initlistensocket`.
unfoldable pub initlistensocket : ℕ → ℕ → Loop → Loop
initlistensocket lfd now s =
    eventadd Events.epollin max_events (eventset max_events lfd Callback.to_acceptconn now s)
