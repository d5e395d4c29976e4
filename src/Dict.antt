-- ===== src/Dict.antt =====
-- Go's `map[string]V`: an association list in which no key stands twice. A `nil` map is the `none`
-- of an `Option (Dict V)`; the code that can meet one says so.
pub mod Laws
use scope_network.Prelude.{
  ℕ, Bool, true, false, List, [], ◌∷◌, ◌≡◌, Option, none, some, if◌then◌else◌,
}
use scope_network.Text.{Text, same}

abbrev pub Dict {ℓ} : Type ℓ → Type ℓ
Dict V = List (Text × V)

module _ {ℓ} {V : Type ℓ} where
  -- `v, found := m[k]`
  unfoldable pub lookup : Text → Dict V → Option V
  lookup k [] = none
  lookup k ((j, v) ∷ m) = if same j k then some v else lookup k m

  -- `m[k] = v`
  unfoldable pub insert : Text → V → Dict V → Dict V
  insert k v [] = (k, v) ∷ []
  insert k v ((j, w) ∷ m) = if same j k then (k, v) ∷ m else (j, w) ∷ insert k v m

  -- `delete(m, k)`
  unfoldable pub erase : Text → Dict V → Dict V
  erase k [] = []
  erase k ((j, w) ∷ m) = if same j k then m else (j, w) ∷ erase k m

  -- No key stands twice.
  abbrev pub Distinct : Dict V → Type ℓ
  Distinct [] = Unit
  Distinct ((j, w) ∷ m) = (lookup j m ≡ none) × Distinct m

-- A `range` over a map visits each entry once, in an order that Go leaves open: `shuffle` is the
-- order of one such loop.
pub record IsIterationOrder {ℓ} {V : Type ℓ} (shuffle : Dict V → Dict V) : Type ℓ where
  pub once : (m : Dict V) → Distinct m → Distinct (shuffle m)
  pub visits : (m : Dict V) (k : Text) → Distinct m → lookup k (shuffle m) ≡ lookup k m
