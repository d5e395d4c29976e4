-- ===== src/Errors.antt =====
-- Go's error values and the ends of a call. Each `fmt.Errorf` of the program is a constructor with
-- the arguments that its text is made of; the texts themselves are not modelled.
use scope_network.Prelude.{ℕ, List, ◌≡◌}
use scope_network.Text.{Text}

pub data Error : Type 0 where
  -- an error that another package returned
  external : Text → Error
  -- docker.go and main.go
  failed_to_connect : Error → Error
  failed_to_create_client : Error → Error
  failed_to_create_directory : Text → Error → Error
  failed_to_listen : Text → Error → Error
  failed_to_get_raw_report : Error → Error
  failed_to_get_handler : Error → Error
  handler_failed : Error → Error
  -- report.go
  failed_to_get_container_id : Text → Error → Error
  container_not_found : Text → Error
  unknown_control_id : Text → Text → Error
  no_suffix : Text → Text → Error
  failed_to_marshal_report : Error → Error
  -- tc.go
  failed_to_execute_command : Error → Error
  failed_to_perform_traffic_control : Error → Error
  failed_to_get_namespace_id : Error → Error
  failed_to_read : Text → Error → Error
  failed_to_get_data : Error → Error
  status_does_not_exist : ℕ → Error
  failed_to_parse_name : Text → Error
  less_parts_than_expected : Text → List Text → Error
  -- tools/cmd/wcloud/client.go
  error_making_request : Text → Error
  no_configuration : Error
  -- tools/runner/runner.go
  timed_out : Error

-- A pair `(A, error)` of which one half is meant.
pub data Result {ℓ} (A : Type ℓ) : Type ℓ where
  ok : A → Result A
  err : Error → Result A

-- How a call ends: it returns, it panics, or the program exits (`log.Fatalf`).
pub data Outcome {ℓ} (A : Type ℓ) : Type ℓ where
  returns : A → Outcome A
  panics exits : Outcome A

infixl 5 ◌>>=◌
abbrev pub ◌>>=◌ {ℓ κ} : {A : Type ℓ} {B : Type κ} → Outcome A → (A → Outcome B) → Outcome B
returns a >>= f = f a
panics >>= f = panics
exits >>= f = exits

pub from_returns {ℓ} : {A : Type ℓ} {a b : A} → returns a ≡ returns b → a ≡ b
from_returns e = cc

pub from_ok {ℓ} : {A : Type ℓ} {a b : A} → ok a ≡ ok b → a ≡ b
from_ok e = cc
