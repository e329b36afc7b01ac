-- ===== src/Rest/Listed.antt =====
-- The lambdas that the documents of rs_rest.cpp list, and their keys.
use riotsensors.Prelude.{
  ℕ, suc, ◌≤◌, ◌≡◌, ◌≢◌, ◌⊎◌, inl, inr, refl, List, [], ◌∷◌, Bool, Option, none, some, arith,
  Bool-cases, get_or, length,
}
use riotsensors.Registry.{RegisteredLambda, Registry}
use riotsensors.Rest.Writer.{decimal}
use riotsensors.Rest.Trees.{matching}

abbrev pub IsIn : RegisteredLambda ℕ → List (RegisteredLambda ℕ) → Type 0
IsIn l [] = ⊥
IsIn l (m ∷ ls) = (l ≡ m) ⊎ IsIn l ls

-- No two of the lambdas have the same key.
abbrev pub AllApart : List (RegisteredLambda ℕ) → Type 0
AllApart [] = Unit {0}
AllApart (l ∷ ls) =
    ((m : RegisteredLambda ℕ) → IsIn m ls → decimal l.id ≢ decimal m.id) × AllApart ls

module _ (keep : RegisteredLambda ℕ → Bool) where
  pub matching-none :
      (xs : List (Option (RegisteredLambda ℕ)))
      → ((j : ℕ) → get_or xs j none ≡ none)
      → matching keep xs ≡ []
  unfolding matching
  matching-none [] h = refl
  matching-none (none ∷ xs) h = matching-none xs (λ j. h (suc j))
  matching-none (some l ∷ xs) h = cc (h 0)

  pub length-matching :
      (xs : List (Option (RegisteredLambda ℕ))) → length (matching keep xs) ≤ length xs
  unfolding matching
  length-matching [] = omega arith
  length-matching (none ∷ xs) = omega (arith, length-matching xs)
  length-matching (some l ∷ xs) = elim (Bool-cases (keep l)) [
    | inl good ↦ rw good (omega (arith, length-matching xs))
    | inr bad ↦ rw bad (omega (arith, length-matching xs))
  ]
