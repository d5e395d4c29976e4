-- ===== src/Traffic/Act/Inversion.antt =====
-- An action that returned was made of parts that returned.
use scope_network.Prelude.{◌≡◌, refl}
use scope_network.Errors.{Outcome, returns, panics, exits}
use scope_network.Traffic.Act.{World, Act, continue, ◌>>=◌}

module _ {A B : Type 0} where
  continue_returns :
      (r : Outcome A) (f : A → Act B) (w : World) {b : B} {w' : World}
      → continue r f w ≡ (returns b, w')
      → (a : A) × (r ≡ returns a) × (f a w ≡ (returns b, w'))
  continue_returns (returns a) f w e = (a, refl, e)
  continue_returns panics f w e = cc
  continue_returns exits f w e = cc

  pub bind_returns :
      (m : Act A) (f : A → Act B) (w : World) {b : B} {w' : World}
      → (m >>= f) w ≡ (returns b, w')
      → (a : A) × ((m w).0 ≡ returns a) × (f a (m w).1 ≡ (returns b, w'))
  unfolding ◌>>=◌
  bind_returns m f w e = continue_returns (m w).0 f (m w).1 e
