-- ===== src/Http/Connection/Chunks.antt =====
-- A connection answers the bytes that it is sent, however they are cut into reads.
use learning_cpp.Prelude.{◌≡◌, refl, sym, ap, ◌∙◌, Option, none, some, List, [], ◌∷◌, ◌++◌, Bytes}
use learning_cpp.Http.Parser.{
  Parser, State, Tribool, accepted, rejected, indeterminate, parse, initial,
}
use learning_cpp.Http.Parser.Append.{continue_with, parse-append}
use learning_cpp.Http.Parser.Message.{Message, print, request_of, IsMessage}
use learning_cpp.Http.Parser.RoundTrip.{parse-print}
use learning_cpp.Http.Request.{Request}
use learning_cpp.Http.Reply.{Reply}
use learning_cpp.Http.Handler.{Handler, handle_request}
use learning_cpp.Http.Connection.{
  Connection, Pending, start, write, after_parse, handle_read, receive,
}

abbrev pub concat : List Bytes → Bytes
concat [] = []
concat (b ∷ bs) = b ++ concat bs

Result : Type 0
Result = Option (Tribool × Bytes × Parser)

-- A connection that waits for more input, with the parser `q`.
abbrev waiting : Connection → Parser → Connection
waiting c q = record c { parser = q; pending = Pending.reading }

after_parse_again :
    (h : Handler) (c : Connection) (q : Parser) (o : Option (Tribool × Bytes × Parser))
    → after_parse h (waiting c q) o ≡ after_parse h c o
unfolding after_parse
after_parse_again h c q none = refl
after_parse_again h c q (some (accepted, rest, p)) = refl
after_parse_again h c q (some (rejected, rest, p)) = refl
after_parse_again h c q (some (indeterminate, rest, p)) = refl

receive_writing :
    (h : Handler) (c : Connection) (p : Parser) (r : Reply) (more : List Bytes)
    → receive h (write c p r) more ≡ some (write c p r)
unfolding receive
receive_writing h c p r [] = refl
receive_writing h c p r (b ∷ more) = refl

-- One read and those behind it.
abbrev then_receive : Handler → List Bytes → Option Connection → Option Connection
then_receive h more none = none
then_receive h more (some c) = receive h c more

receive_cons :
    (h : Handler) (c : Connection) (b : Bytes) (more : List Bytes)
    → c.pending ≡ Pending.reading
    → receive h c (b ∷ more) ≡ then_receive h more (handle_read h c (some b))
unfolding receive handle_read after_parse
receive_cons h c b more e = rw (e, receive) (go (handle_read h c (some b)))
  where
    go :
        (o : Option Connection)
        → (elim o [ none ↦ none | some c' ↦ receive h c' more ]) ≡ then_receive h more o
    go none = refl
    go (some c') = refl

-- The reads that follow see the input where the parse left it.
then_receive_lem :
    (h : Handler) (c : Connection) (more : List Bytes) (o : Option (Tribool × Bytes × Parser))
    → ((q : Parser)
        → receive h (waiting c q) more ≡ after_parse h (waiting c q) (parse q (concat more)))
    → then_receive h more (after_parse h c o) ≡ after_parse h c (continue_with (concat more) o)
unfolding after_parse
then_receive_lem h c more none ih = refl
then_receive_lem h c more (some (rejected, rest, p)) ih = receive_writing h c p _ more
then_receive_lem h c more (some (indeterminate, rest, p)) ih =
    ih p ∙ after_parse_again h c p (parse p (concat more))
then_receive_lem h c more (some (accepted, rest, p)) ih =
    go (handle_request h p.req c.reply c.default_return_type)
  where
    go :
        (o : Option Reply)
        → then_receive h more (elim o [ none ↦ none | some r ↦ some (write c p r) ])
          ≡ (elim o [ none ↦ none | some r ↦ some (write c p r) ])
    go none = refl
    go (some r) = receive_writing h c p r more

-- Pieces of input, read one after the other by a connection that reads, leave it as one read of them
-- all would: it goes on reading, or it writes the one reply, and then reads no more.
pub receive-concat :
    (h : Handler) (c : Connection) (pieces : List Bytes)
    → c.pending ≡ Pending.reading
    → receive h c pieces ≡ handle_read h c (some (concat pieces))
unfolding handle_read
receive-concat h c [] e =
    unfold receive after_parse parse in ap (λ p. some (record c { pending = p })) e
receive-concat h c (b ∷ more) e =
    receive_cons h c b more e
    ∙ then_receive_lem h c more (parse c.parser b) (λ q. receive-concat h (waiting c q) more refl)
    ∙ ap (after_parse h c) (sym (parse-append c.parser b (concat more)))

-- The reply's bytes are under way.
abbrev pub answered : Bytes → Request → Option Reply → Option Connection
answered default_type req none = none
answered default_type req (some r) =
    some (write (start default_type) (record { state = State.expecting_newline_3; req = req }) r)

-- A new connection that is sent a well-formed message, cut into reads in any way and with any bytes
-- behind it, hands the message's request to the handler once and writes the buffers of the handler's
-- reply; it faults only if the handler does.
pub receive_message :
    (h : Handler) (default_type : Bytes) (m : Message) (rest : Bytes) (pieces : List Bytes)
    → IsMessage m
    → concat pieces ≡ print m rest
    → receive h (start default_type) pieces
      ≡ answered default_type
          (request_of m)
          (handle_request h (request_of m) (start default_type).reply default_type)
unfolding start handle_read after_parse
receive_message h default_type m rest pieces k e =
    receive-concat h (start default_type) pieces refl
    ∙ ap (λ b. after_parse h (start default_type) (parse initial b)) e
    ∙ ap (after_parse h (start default_type)) (parse-print m rest k)
    ∙ go (handle_request h (request_of m) (start default_type).reply default_type)
  where
    go :
        (o : Option Reply)
        → (elim o [
          | none ↦ none
          | some r ↦ some (
              write
                (start default_type)
                (record { state = State.expecting_newline_3; req = request_of m })
                r)
        ])
          ≡ answered default_type (request_of m) o
    go none = refl
    go (some r) = refl
