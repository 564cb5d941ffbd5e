-- ===== src/Http/Parser/Step.antt =====
-- The cases of one turn of `parse`, and its equations in each.
use learning_cpp.Prelude.{ℕ, ◌≡◌, refl, none, some, ◌∷◌, Bytes}
use learning_cpp.Http.Parser.{Parser, accepted, rejected, indeterminate, Outcome, consume, parse}

-- What a turn may leave.
pub data Turn (o : Outcome) : Type 0 where
  fault : o ≡ none → Turn o
  more : (q : Parser) → o ≡ some (indeterminate, q) → Turn o
  accept : (q : Parser) → o ≡ some (accepted, q) → Turn o
  reject : (q : Parser) → o ≡ some (rejected, q) → Turn o

pub turn : (o : Outcome) → Turn o
turn none = Turn.fault refl
turn (some (indeterminate, q)) = Turn.more q refl
turn (some (accepted, q)) = Turn.accept q refl
turn (some (rejected, q)) = Turn.reject q refl

module _ (p : Parser) (c : ℕ) (cs : Bytes) where
  pub parse-fault : consume p c ≡ none → parse p (c ∷ cs) ≡ none
  unfolding parse
  parse-fault e = rw (e, parse)

  pub parse-more :
      {q : Parser} → consume p c ≡ some (indeterminate, q) → parse p (c ∷ cs) ≡ parse q cs
  unfolding parse
  parse-more e = rw (e, parse)

  pub parse-accept :
      {q : Parser} → consume p c ≡ some (accepted, q) → parse p (c ∷ cs) ≡ some (accepted, cs, q)
  unfolding parse
  parse-accept e = rw (e, parse)

  pub parse-reject :
      {q : Parser} → consume p c ≡ some (rejected, q) → parse p (c ∷ cs) ≡ some (rejected, cs, q)
  unfolding parse
  parse-reject e = rw (e, parse)
