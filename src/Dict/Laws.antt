-- ===== src/Dict/Laws.antt =====
-- The laws of maps: what each operation leaves at each key.
use scope_network.Prelude.{[], ◌∷◌, ◌≡◌, refl, none, some, if◌then◌else◌, arith}
use scope_network.Text.{Text, same, same_iff, same_refl}
use scope_network.Dict.{Dict, lookup, insert, erase, Distinct}

pub lookup-insert {ℓ} :
    {V : Type ℓ} (k j : Text) (v : V) (m : Dict V)
    → lookup j (insert k v m) ≡ (if same k j then some v else lookup j m)
unfolding lookup insert
lookup-insert k j v [] = refl
lookup-insert k j v ((i, w) ∷ m) =
    ground (arith, same_iff k j, same_iff i k, same_iff i j, lookup-insert k j v m)

pub lookup-insert_self {ℓ} :
    {V : Type ℓ} (k : Text) (v : V) (m : Dict V) → lookup k (insert k v m) ≡ some v
lookup-insert_self k v m = simp (lookup-insert, same_refl)

pub insert-Distinct {ℓ} :
    {V : Type ℓ} (k : Text) (v : V) (m : Dict V) → Distinct m → Distinct (insert k v m)
unfolding insert lookup
insert-Distinct k v [] d = (refl, tt)
insert-Distinct k v ((i, w) ∷ m) (fresh, d) =
    ground (arith, same_iff i k, same_iff k i, lookup-insert k i v m, insert-Distinct k v m d)

-- Deleting a key removes it and leaves the others, in a map with distinct keys.
pub lookup-erase {ℓ} :
    {V : Type ℓ} (k j : Text) (m : Dict V)
    → Distinct m
    → lookup j (erase k m) ≡ (if same k j then none else lookup j m)
unfolding lookup erase
lookup-erase k j [] d = ground arith
lookup-erase k j ((i, w) ∷ m) (fresh, d) =
    ground (arith, same_iff k j, same_iff i k, same_iff i j, lookup-erase k j m d)

pub erase-Distinct {ℓ} : {V : Type ℓ} (k : Text) (m : Dict V) → Distinct m → Distinct (erase k m)
unfolding erase lookup
erase-Distinct k [] d = tt
erase-Distinct k ((i, w) ∷ m) (fresh, d) =
    ground (arith, lookup-erase k i m d, erase-Distinct k m d)
