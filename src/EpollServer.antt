-- ===== src/EpollServer.antt =====
-- Linux_Net/04.使用epoll函数提高服务器处理能力/server.cpp, an echo server whose clients share one buffer.
-- What the system answers to an event's calls is in the event. A text that is read up to a NUL behind the
-- buffer's end is the outcome `none`.
pub mod Buffer
pub mod Shared
use learning_cpp.Prelude.{
  ℕ, zero, suc, ◌==◌, Bool, true, false, ◌&&◌, Option, none, some, if◌then◌else◌, List, [], ◌∷◌,
  ◌++◌, Bytes, length, take, drop,
}

abbrev pub maxsize : ℕ
maxsize = 1024

-- What a descriptor is registered for.
pub data Interest : Type 0 where
  epollin epollout : Interest

pub record Server : Type 0 where
  pub registered : ℕ → Option Interest
  pub buf : Bytes
  pub sent : List (ℕ × Bytes)

-- A ready descriptor with what the calls for it answer: `accept` a descriptor, `read` some bytes, of which
-- there are none at the end of the file, and `write` the number of bytes it took; `none` is -1.
pub record Event : Type 0 where
  pub fd : ℕ
  pub is_in : Bool
  pub is_out : Bool
  pub accepted : Option ℕ
  pub bytes : Option Bytes
  pub wrote : Option ℕ

abbrev pub put : ℕ → Option Interest → (ℕ → Option Interest) → ℕ → Option Interest
put fd i m k = if k == fd then i else m k

-- `add_event`.
abbrev pub add_event : ℕ → Interest → Server → Server
add_event fd state s = record s { registered = put fd (some state) s.registered }

-- `delete_event`, and `close` before it, which has removed the descriptor.
abbrev pub delete_event : ℕ → Server → Server
delete_event fd s = record s { registered = put fd none s.registered }

-- `modify_event`, which fails for a descriptor that is not registered.
unfoldable pub modify_event : ℕ → Interest → Server → Server
modify_event fd state s = elim (s.registered fd) [
  | none ↦ s
  | some old ↦ record s { registered = put fd (some state) s.registered }
]

abbrev pub zeros : ℕ → Bytes
zeros zero = []
zeros (suc n) = 0 ∷ zeros n

-- The text in a buffer, up to its first NUL.
unfoldable pub text_of : Bytes → Option Bytes
text_of [] = none
text_of (c ∷ cs) =
    let rest = text_of cs in
    if c == 0 then some [] else elim rest [ none ↦ none | some text ↦ some (c ∷ text) ]

-- `handle_accept`.
unfoldable pub handle_accept : Option ℕ → Server → Server
handle_accept none s = s
handle_accept (some newfd) s = add_event newfd Interest.epollin s

-- What `read` leaves in the buffer.
abbrev pub filled : Bytes → Server → Server
filled bytes s = record s { buf = bytes ++ drop (length bytes) s.buf }

-- `do_read`, with the text that it prints.
unfoldable pub do_read : ℕ → Option Bytes → Server → Option Server
do_read fd none s = some (delete_event fd s)
do_read fd (some []) s = some (delete_event fd s)
do_read fd (some (c ∷ cs)) s = elim (text_of (filled (c ∷ cs) s).buf) [
  | none ↦ none
  | some text ↦ some (modify_event fd Interest.epollout (filled (c ∷ cs) s))
]

abbrev pub written : ℕ → Option ℕ → Bytes → Server → Server
written fd none text s = delete_event fd s
written fd (some n) text s =
    modify_event fd Interest.epollin (record s { sent = s.sent ++ (fd, take n text) ∷ [] })

-- `do_write`.
unfoldable pub do_write : ℕ → Option ℕ → Server → Option Server
do_write fd wrote s = elim (text_of s.buf) [
  | none ↦ none
  | some text ↦ some (record (written fd wrote text s) { buf = zeros maxsize })
]

-- A turn of `handle_events`.
unfoldable pub handle_event : ℕ → Event → Server → Option Server
handle_event listenfd e s =
    if (e.fd == listenfd) && e.is_in
    then some (handle_accept e.accepted s)
    else if e.is_in
    then do_read e.fd e.bytes s
    else if e.is_out
    then do_write e.fd e.wrote s
    else some s

unfoldable pub handle_events : ℕ → List Event → Server → Option Server
handle_events listenfd [] s = some s
handle_events listenfd (e ∷ events) s = elim (handle_event listenfd e s) [
  | none ↦ none
  | some s' ↦ handle_events listenfd events s'
]

-- The turns of `do_epoll`, each with the events of an `epoll_wait`.
unfoldable pub do_epoll_turns : ℕ → List (List Event) → Server → Option Server
do_epoll_turns listenfd [] s = some s
do_epoll_turns listenfd (events ∷ turns) s = elim (handle_events listenfd events s) [
  | none ↦ none
  | some s' ↦ do_epoll_turns listenfd turns s'
]

-- `do_epoll` up to the loop.
unfoldable pub start : ℕ → Server
start listenfd =
    add_event listenfd Interest.epollin
      (record { registered = λ fd. none; buf = zeros maxsize; sent = [] })
