-- ===== src/Invert2/Maps.antt =====
-- The maps from an index of invert_table/, as lists of pairs.
use learning_cpp.Prelude.{
  ℤ, ◌==ℤ◌, ◌≡◌, refl, arith, Option, none, some, if◌then◌else◌, List, [], ◌∷◌,
}

module _ {V : Type 0} where
  -- `map[k] = v`.
  unfoldable pub assign : ℤ → V → List (ℤ × V) → List (ℤ × V)
  assign k v [] = (k, v) ∷ []
  assign k v ((j, old) ∷ m) = if j ==ℤ k then (j, v) ∷ m else (j, old) ∷ assign k v m

  -- `map.find(k)`.
  unfoldable pub find : ℤ → List (ℤ × V) → Option V
  find k [] = none
  find k ((j, v) ∷ m) = if j ==ℤ k then some v else find k m

  pub find-assign :
      (k j : ℤ) (v : V) (m : List (ℤ × V))
      → find k (assign j v m) ≡ (if j ==ℤ k then some v else find k m)
  unfolding find assign
  find-assign k j v [] = refl
  find-assign k j v ((i, old) ∷ m) = ground (arith, find-assign k j v m)
