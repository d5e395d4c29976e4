-- ===== src/Wcloud.antt =====
-- tools/cmd/wcloud/client.go and types.go: the client of the deployment service. The HTTP library,
-- the JSON codec and the server are arguments; each answer may depend on the requests so far.
pub mod Exchange
pub mod Flags
pub mod Cli
pub mod History
pub mod Main
use scope_network.Prelude.{
  ℕ, Bool, true, false, List, [], ◌∷◌, ◌++◌, Option, none, some, ◌==◌, if◌then◌else◌, length,
}
use scope_network.Text.{Text, codes}
use scope_network.Text.Decimal.{format_int}
use scope_network.Prelude.Int.{ℤ}
use scope_network.Errors.{Error, error_making_request, no_configuration, Result, ok, err}

-- `Created` and `Priority` are filled in by the service.
pub record Deployment : Type 0 where
  pub id : Text
  pub created_at : Text
  pub image_name : Text
  pub version : Text
  pub priority : ℤ
  pub state : Text
  pub triggering_user : Text
  pub intended_services : List Text

pub record NotificationConfig : Type 0 where
  pub slack_webhook_url : Text
  pub slack_username : Text
  pub message_template : Text
  pub apply_message_template : Text

pub record Config : Type 0 where
  pub repo_url : Text
  pub repo_branch : Text
  pub repo_path : Text
  pub repo_key : Text
  pub kubeconfig_path : Text
  pub auto_apply : Bool
  pub notifications : List NotificationConfig
  pub config_file_black_list : List Text
  pub commit_message_template : Text

pub record HttpRequest : Type 0 where
  pub method : Text
  pub url : Text
  pub authorization : Text
  pub body : Text

pub record HttpResponse : Type 0 where
  pub status_code : ℕ
  pub status : Text
  pub body : Text

-- The library's `NewRequest`, `Do` and `ReadAll`, and the JSON of each type.
pub record Service : Type 0 where
  pub refuses : Text → Text → Option Error
  pub answer : List HttpRequest → HttpRequest → Result HttpResponse
  pub read_all : Text → Result Text
  pub encode_deployment : Deployment → Result Text
  pub decode_deployments : Text → Result (List Deployment)
  pub encode_config : Config → Result Text
  pub decode_config : Text → Result Config

pub record Client : Type 0 where
  pub token : Text
  pub base_url : Text

abbrev pub new_client : Text → Text → Client
new_client token base_url = record { token = token; base_url = base_url }

-- A call, on the requests that were sent before it.
abbrev pub Call : Type 0 → Type 0
Call A = List HttpRequest → Result A × List HttpRequest

abbrev pub then_ok : {A B : Type 0} → Result A → (A → Call B) → Call B
then_ok (ok a) rest sent = rest a sent
then_ok (err e) rest sent = (err e, sent)

abbrev pub done : {A : Type 0} → Result A → Call A
done r sent = (r, sent)

abbrev request_of : Option Error → HttpRequest → Result HttpRequest
request_of (some e) r = err e
request_of none r = ok r

module _ (v : Service) (c : Client) where
  unfoldable pub new_request : Text → Text → Text → Result HttpRequest
  new_request method path body = request_of (v.refuses method (c.base_url ++ path)) (record {
    method = method;
    url = c.base_url ++ path;
    authorization = codes "Scope-Probe token=" ++ c.token;
    body = body;
  })

  -- `http.DefaultClient.Do`
  abbrev pub send : {B : Type 0} → HttpRequest → (HttpResponse → Call B) → Call B
  send r rest sent = then_ok (v.answer sent r) rest (sent ++ r ∷ [])

  -- The request of a method, and the check of the status of its answer.
  abbrev pub exchange : {B : Type 0} → Text → Text → Text → (HttpResponse → Call B) → Call B
  exchange method path body rest = then_ok (new_request method path body) λ r. send r rest

  unfoldable pub deploy : Deployment → Call (Unit {0})
  unfolding new_request
  deploy deployment = then_ok (v.encode_deployment deployment) λ body.
      exchange (codes "POST") (codes "/api/deploy/deploy") body λ res.
        if res.status_code == 204
        then done (ok tt)
        else done (err (error_making_request res.status))

  unfoldable pub get_deployments : ℤ → ℤ → Call (List Deployment)
  unfolding new_request format_int
  get_deployments from through =
      exchange (codes "GET")
        (codes "/api/deploy/deploy?from="
          ++ (format_int from ++ (codes "&through=" ++ format_int through)))
        []
        λ res.
          if res.status_code == 200
          then done (v.decode_deployments res.body)
          else done (err (error_making_request res.status))

  unfoldable pub get_events : ℤ → ℤ → Call Text
  unfolding new_request format_int
  get_events from through =
      exchange (codes "GET")
        (codes "/api/deploy/event?from="
          ++ (format_int from ++ (codes "&through=" ++ format_int through)))
        []
        λ res.
          if res.status_code == 200
          then done (v.read_all res.body)
          else done (err (error_making_request res.status))

  unfoldable pub get_config : Call Config
  unfolding new_request
  get_config = exchange (codes "GET") (codes "/api/config/deploy") [] λ res.
      if res.status_code == 404
      then done (err no_configuration)
      else if res.status_code == 200
      then done (v.decode_config res.body)
      else done (err (error_making_request res.status))

  unfoldable pub set_config : Config → Call (Unit {0})
  unfolding new_request
  set_config config = then_ok (v.encode_config config) λ body.
      exchange (codes "POST") (codes "/api/config/deploy") body λ res.
        if res.status_code == 204
        then done (ok tt)
        else done (err (error_making_request res.status))

  unfoldable pub get_logs : Text → Call Text
  unfolding new_request
  get_logs deploy_id =
      exchange (codes "GET") (codes "/api/deploy/deploy/" ++ (deploy_id ++ codes "/log")) [] λ res.
        if res.status_code == 200
        then done (v.read_all res.body)
        else done (err (error_making_request res.status))
