-- ===== src/Common/Maps.antt =====
-- `std::map` with string keys, as the list of its entries: `find` and `emplace`.
use mathlib.Core.List.{List, [], ◌∷◌}
use mathlib.Core.Option.{Option, none, some}
use mathlib.Core.Path.{◌≡◌}
use native.Mathlib.Omega.{arith}
use yagi.Common.Tests.{if◌then◌else◌}
use yagi.Common.Text.{Bytes, bytes_eq, bytes_eq_refl, bytes_eq→≡}

module _ {ℓ} {V : Type ℓ} where
  unfoldable pub lookup : Bytes → List (Bytes × V) → Option V
  lookup k [] = none
  lookup k ((j, v) ∷ m) = if bytes_eq j k then some v else lookup k m

  -- A key that is there keeps its value.
  unfoldable pub emplace : Bytes → V → List (Bytes × V) → List (Bytes × V)
  emplace k v [] = (k, v) ∷ []
  emplace k v ((j, w) ∷ m) = if bytes_eq j k then (j, w) ∷ m else (j, w) ∷ emplace k v m

  -- The first of two values.
  abbrev pub or_else : Option V → Option V → Option V
  or_else (some v) w = some v
  or_else none w = w

  pub lookup-emplace :
      (k j : Bytes) (v : V) (m : List (Bytes × V))
      → lookup j (emplace k v m) ≡ or_else (lookup j m) (if bytes_eq k j then some v else none)
  unfolding lookup emplace
  lookup-emplace k j v [] = ground arith
  lookup-emplace k j v ((i, w) ∷ m) = ground (
    arith,
    lookup-emplace k j v m,
    bytes_eq→≡ i k,
    bytes_eq→≡ i j,
    bytes_eq→≡ k j,
    bytes_eq_refl k,
    bytes_eq_refl j,
  )
