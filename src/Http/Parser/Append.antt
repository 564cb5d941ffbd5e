-- ===== src/Http/Parser/Append.antt =====
-- The parser may be fed in pieces: what it leaves does not depend on where the input is cut.
use learning_cpp.Prelude.{◌≡◌, refl, Option, none, some, [], ◌∷◌, ◌++◌, Bytes}
use learning_cpp.Http.Parser.Step.{Turn, turn, parse-fault, parse-more, parse-accept, parse-reject}
use learning_cpp.Http.Parser.{Parser, Tribool, accepted, rejected, indeterminate, consume, parse}

-- To go on with more input after a call of `parse`.
abbrev pub continue_with :
    Bytes → Option (Tribool × Bytes × Parser) → Option (Tribool × Bytes × Parser)
continue_with ys none = none
continue_with ys (some (indeterminate, rest, q)) = parse q ys
continue_with ys (some (accepted, rest, q)) = some (accepted, rest ++ ys, q)
continue_with ys (some (rejected, rest, q)) = some (rejected, rest ++ ys, q)

-- To parse two pieces of input one after the other is to parse them at once: an accepted or rejected
-- request ends the parse, and leaves the rest of the input; otherwise the second piece is parsed
-- from the state that the first piece left.
pub parse-append : (p : Parser) (xs ys : Bytes) → parse p (xs ++ ys) ≡ continue_with ys (parse p xs)
parse-append p [] ys = unfold parse in refl
parse-append p (c ∷ xs) ys = elim (turn (consume p c)) [
  | Turn.fault e ↦ rw (parse-fault p c (xs ++ ys) e, parse-fault p c xs e)
  | Turn.more q e ↦ rw (parse-more p c (xs ++ ys) e, parse-more p c xs e) (parse-append q xs ys)
  | Turn.accept q e ↦ rw (parse-accept p c (xs ++ ys) e, parse-accept p c xs e)
  | Turn.reject q e ↦ rw (parse-reject p c (xs ++ ys) e, parse-reject p c xs e)
]
