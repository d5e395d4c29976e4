-- ===== src/Traffic/Act.antt =====
-- The state that tc.go works on, and actions that read the operating system, change that state and
-- return, panic or exit. What was done before a panic stays done.
pub mod Inversion
use scope_network.Prelude.{ℕ, ◌+◌, List, [], ◌∷◌, ◌++◌, ◌≡◌, refl, Option, none, some}
use scope_network.Text.{Text}
use scope_network.Dict.{Dict}
use scope_network.Errors.{Error, Result, ok, err, Outcome, returns, panics, exits}
use scope_network.Traffic.Status.{TrafficControlStatus}

-- A command that was run inside the network namespace of the given path.
pub record Command : Type 0 where
  pub net_ns : Text
  pub argv : List Text

-- `trafficControlStatusCache`, which is nil until something makes it; the commands run so far, in
-- their order; and a count of the questions that the outside world was asked.
pub record World : Type 0 where
  pub cache : Option (Dict TrafficControlStatus)
  pub commands : List Command
  pub moment : ℕ

abbrev pub Act {ℓ} : Type ℓ → Type ℓ
Act A = World → Outcome A × World

module _ {ℓ} {A : Type ℓ} where
  abbrev pub pure : A → Act A
  pure a w = (returns a, w)

  abbrev pub lift : Outcome A → Act A
  lift r w = (r, w)

  -- The answer may depend on the moment.
  abbrev pub ask : (ℕ → A) → Act A
  ask f w = (returns (f w.moment), record w { moment = w.moment + 1 })

  -- `if err != nil { … }` and the rest of the body, for an error alone and for a value with one.
  abbrev pub if_some : Option Error → (Error → Act A) → Act A → Act A
  if_some none failed rest w = rest w
  if_some (some e) failed rest w = failed e w

module _ {ℓ κ} {A : Type ℓ} {B : Type κ} where
  abbrev pub continue : Outcome A → (A → Act B) → Act B
  continue (returns a) f w = f a w
  continue panics f w = (panics, w)
  continue exits f w = (exits, w)

  infixl 10 ◌>>=◌ ◌>>◌
  unfoldable pub ◌>>=◌ : Act A → (A → Act B) → Act B
  ◌>>=◌ m f w = let (r, w') = m w in continue r f w'

  abbrev pub ◌>>◌ : Act A → Act B → Act B
  m >> n = m >>= λ _. n

  abbrev pub if_err : Result A → (Error → Act B) → (A → Act B) → Act B
  if_err (ok a) failed rest w = rest a w
  if_err (err e) failed rest w = failed e w
