-- ===== src/Http/Connection.antt =====
-- `connection` of ad_system/server3/: the handlers of the reads and of the write, and the events that
-- the socket may bring.
pub mod Chunks
use learning_cpp.Prelude.{ℕ, Bool, true, false, Option, none, some, List, [], ◌∷◌, ◌++◌, Bytes}
use learning_cpp.Http.Parser.{Parser, Tribool, accepted, rejected, indeterminate, parse, initial}
use learning_cpp.Http.Reply.{Status, Reply, stock_reply, to_buffers, gather}
use learning_cpp.Http.Handler.{Handler, handle_request}

-- The asynchronous operation that is under way: a read, the write of the buffers of `reply_`, or none.
pub data Pending : Type 0 where
  reading : Pending
  writing : Bytes → Pending
  idle : Pending

pub record Connection : Type 0 where
  pub parser : Parser
  pub reply : Reply
  pub default_return_type : Bytes
  pub pending : Pending
  pub is_shut_down : Bool

-- The constructor and `start()`. The source does not initialise the status of `reply_`; it is set
-- before it is read.
unfoldable pub start : Bytes → Connection
start default_type = record {
  parser = initial;
  reply = record { status = Status.ok; headers = []; content = [] };
  default_return_type = default_type;
  pending = Pending.reading;
  is_shut_down = false;
}

abbrev pub write : Connection → Parser → Reply → Connection
write c p r = record c { parser = p; reply = r; pending = Pending.writing (gather (to_buffers r)) }

-- What `handle_read` does with the result of the parse.
unfoldable pub after_parse :
    Handler → Connection → Option (Tribool × Bytes × Parser) → Option Connection
after_parse h c none = none
after_parse h c (some (accepted, _, p)) =
    elim (handle_request h p.req c.reply c.default_return_type) [
      | none ↦ none
      | some r ↦ some (write c p r)
    ]
after_parse h c (some (rejected, _, p)) =
    some (write c p (stock_reply h.to_text Status.bad_request))
after_parse h c (some (indeterminate, _, p)) =
    some (record c { parser = p; pending = Pending.reading })

-- `handle_read(e, bytes_transferred)`: `none` for an error, or the bytes in the buffer.
unfoldable pub handle_read : Handler → Connection → Option Bytes → Option Connection
handle_read h c none = some (record c { pending = Pending.idle })
handle_read h c (some bytes) = after_parse h c (parse c.parser bytes)

-- `handle_write(e)`: true for an error.
unfoldable pub handle_write : Connection → Bool → Connection
handle_write c true = record c { pending = Pending.idle }
handle_write c false = record c { pending = Pending.idle; is_shut_down = true }

-- Reads of pieces of input, one after the other, as long as one is under way.
unfoldable pub receive : Handler → Connection → List Bytes → Option Connection
receive h c [] = some c
receive h c (bytes ∷ more) = elim c.pending [
  | Pending.reading ↦ elim (handle_read h c (some bytes)) [
    | none ↦ none
    | some c' ↦ receive h c' more
  ]
  | _ ↦ some c
]
