-- ===== src/Wrap.antt =====
-- Linux_Net/Reactor/wrap.c: reads and writes of a socket that go on after a part or an interruption. The
-- other programs of Linux_Net have copies of the file. What arrives at the socket and what the system
-- takes are lists of the answers to `read` and `write`; a function that has no answer left blocks, `none`.
pub mod Lines
pub mod Exchange
use learning_cpp.Prelude.{
  ℕ, zero, suc, ◌+◌, ◌-◌, leb, ltb, ◌==◌, Option, none, some, if◌then◌else◌, List, [], ◌∷◌, ◌++◌,
  Bytes, length, take, drop,
}

-- Bytes that arrive together, of which there are none at the end of the file; an interruption; an error.
pub data Arrival : Type 0 where
  arrives : Bytes → Arrival
  interrupted failed : Arrival

-- What a call of `read` leaves: what did not fit, and the end of the file for good.
abbrev pub left_over : ℕ → Bytes → List Arrival → List Arrival
left_over n [] more = Arrival.arrives [] ∷ more
left_over n (c ∷ cs) more =
    if leb (length (c ∷ cs)) n then more else Arrival.arrives (drop n (c ∷ cs)) ∷ more

-- The bytes that are read, and the value that is returned; `none` stands for -1.
pub record Received : Type 0 where
  pub bytes : Bytes
  pub result : Option ℕ
  pub rest : List Arrival

-- `Readn`: `nleft` bytes are wanted, and `n` in all.
unfoldable pub readn_loop : ℕ → ℕ → Bytes → List Arrival → Option Received
readn_loop n zero got more = some (record { bytes = got; result = some (n - 0); rest = more })
readn_loop n (suc nleft) got [] = none
readn_loop n (suc nleft) got (Arrival.interrupted ∷ more) = readn_loop n (suc nleft) got more
readn_loop n (suc nleft) got (Arrival.failed ∷ more) =
    some (record { bytes = got; result = none; rest = more })
readn_loop n (suc nleft) got (Arrival.arrives [] ∷ more) =
    some (record { bytes = got; result = some (n - suc nleft); rest = Arrival.arrives [] ∷ more })
readn_loop n (suc nleft) got (Arrival.arrives (c ∷ cs) ∷ more) =
    if leb (length cs) nleft
    then readn_loop n (nleft - length cs) (got ++ c ∷ cs) more
    else some (record {
      bytes = got ++ take (suc nleft) (c ∷ cs);
      result = some (n - 0);
      rest = Arrival.arrives (drop (suc nleft) (c ∷ cs)) ∷ more;
    })

unfoldable pub readn : ℕ → List Arrival → Option Received
readn n more = readn_loop n n [] more

-- The answers to `write`: how many bytes are taken, of those that are offered.
pub data Taking : Type 0 where
  takes : ℕ → Taking
  interrupted failed : Taking

-- The pieces that were sent, and the value that is returned.
pub record Sent : Type 0 where
  pub pieces : List Bytes
  pub result : Option ℕ

abbrev pub with_piece : Bytes → Option Sent → Option Sent
with_piece piece none = none
with_piece piece (some s) = some (record s { pieces = piece ∷ s.pieces })

-- `Writen` of what is left of `n` bytes.
unfoldable pub writen_loop : ℕ → Bytes → List Taking → Option Sent
writen_loop n [] ts = some (record { pieces = []; result = some n })
writen_loop n (c ∷ cs) [] = none
writen_loop n (c ∷ cs) (Taking.interrupted ∷ ts) = writen_loop n (c ∷ cs) ts
writen_loop n (c ∷ cs) (Taking.failed ∷ ts) = some (record { pieces = []; result = none })
writen_loop n (c ∷ cs) (Taking.takes zero ∷ ts) = some (record { pieces = []; result = none })
writen_loop n (c ∷ cs) (Taking.takes (suc k) ∷ ts) =
    with_piece (take (suc k) (c ∷ cs)) (writen_loop n (drop (suc k) (c ∷ cs)) ts)

unfoldable pub writen : Bytes → List Taking → Option Sent
writen vptr ts = writen_loop (length vptr) vptr ts

-- What `my_read` returns: 1 with a byte, 0, or -1.
pub data Rc : Type 0 where
  one : ℕ → Rc
  end_of_file error : Rc

-- `read_buf` from `read_ptr` on, and the socket.
pub record Reader : Type 0 where
  pub read_buf : Bytes
  pub arrivals : List Arrival

abbrev pub buf_size : ℕ
buf_size = 100

-- `my_read` when the buffer is empty.
unfoldable pub refill : List Arrival → Option (Rc × Reader)
refill [] = none
refill (Arrival.interrupted ∷ more) = refill more
refill (Arrival.failed ∷ more) = some (Rc.error, record { read_buf = []; arrivals = more })
refill (Arrival.arrives [] ∷ more) =
    some (Rc.end_of_file, record { read_buf = []; arrivals = Arrival.arrives [] ∷ more })
refill (Arrival.arrives (c ∷ cs) ∷ more) = some (
  Rc.one c,
  record { read_buf = take (buf_size - 1) cs; arrivals = left_over buf_size (c ∷ cs) more },
)

unfoldable pub my_read : Reader → Option (Rc × Reader)
my_read r = elim r.read_buf [
  | [] ↦ refill r.arrivals
  | c ∷ cs ↦ some (Rc.one c, record r { read_buf = cs })
]

-- The line in the caller's buffer, and the value that is returned.
pub record Line : Type 0 where
  pub line : Bytes
  pub result : Option ℕ
  pub reader : Reader

-- The loop of `Readline`, with `k` turns to go.
unfoldable pub readline_loop : ℕ → ℕ → Bytes → Reader → Option Line
readline_loop zero n line r = some (record { line = line; result = some n; reader = r })
readline_loop (suc k) n line r = elim (my_read r) [
  | none ↦ none
  | some (Rc.one c, r') ↦
      let rest = readline_loop k (n + 1) (line ++ c ∷ []) r' in
      if c == 10
      then some (record { line = line ++ c ∷ []; result = some n; reader = r' })
      else rest
  | some (Rc.end_of_file, r') ↦ some (record { line = line; result = some (n - 1); reader = r' })
  | some (Rc.error, r') ↦ some (record { line = line; result = none; reader = r' })
]

unfoldable pub readline : ℕ → Reader → Option Line
readline maxlen r = readline_loop (maxlen - 1) 1 [] r
