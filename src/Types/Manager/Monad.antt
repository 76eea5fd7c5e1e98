-- ===== src/Types/Manager/Monad.antt =====
-- Computations on a state that may end without a value.
use yagi.Common.{List, [], ◌∷◌}

pub data Result (A : Type 0) : Type 0 where
  ok : A → Result A
  no_model : Result A
  out_of_fuel : Result A

abbrev pub M : Type 0 → Type 0 → Type 0
M S A = S → Result A × S

module _ {S : Type 0} where
  abbrev pub return : {A : Type 0} → A → M S A
  return a s = (ok a, s)

  -- What follows a result, in the state that it left.
  abbrev pub after : {A B : Type 0} → (A → M S B) → Result A × S → Result B × S
  after f (ok a, s) = f a s
  after f (no_model, s) = (no_model, s)
  after f (out_of_fuel, s) = (out_of_fuel, s)

  infixl 5 ◌>>=◌ ◌>>◌
  abbrev pub ◌>>=◌ : {A B : Type 0} → M S A → (A → M S B) → M S B
  (m >>= f) s = after f (m s)

  abbrev pub ◌>>◌ : {A B : Type 0} → M S A → M S B → M S B
  m >> k = m >>= λ _. k

  -- An operation of the state that has a value, and one that has none.
  abbrev pub step : {A : Type 0} → (S → A × S) → M S A
  step f s = let (a, s') = f s in (ok a, s')

  abbrev pub change : (S → S) → M S (Unit {0})
  change f s = (ok tt, f s)

  unfoldable pub for_each : {A B : Type 0} → (A → M S B) → List A → M S (List B)
  for_each f [] = return []
  for_each f (x ∷ xs) = do y ← f x; ys ← for_each f xs; return (y ∷ ys)
