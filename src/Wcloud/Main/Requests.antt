-- ===== src/Wcloud/Main/Requests.antt =====
-- tools/cmd/wcloud/cli.go: what a run of the program sends.
use scope_network.Prelude.{
  ◌≡◌, refl, sym, subst, List, [], ◌∷◌, none, some, Bool, true, false, if◌then◌else◌,
}
use scope_network.Text.{Text, codes, same}
use scope_network.Text.Split.{split_two}
use scope_network.Errors.{Result, ok, err}
use scope_network.Wcloud
use scope_network.Wcloud.{Deployment, Config, HttpRequest, Service, Client}
use scope_network.Wcloud.Flags.{Parsed, parse_flags}
use scope_network.Wcloud.Exchange.{
  Asked, nothing, deploy-Asked, get_deployments-Asked, get_events-Asked, get_config-Asked,
  set_config-Asked, get_logs-Asked,
}
use scope_network.Wcloud.Cli
use scope_network.Wcloud.Cli.{
  Exit, Command, Local, deploy_parsed, deploy_parts, deploy_by, known_flag, services_of, user_of,
  username_of, deployment_of, set_loaded, print_config, prints_text, ends, load_config,
}
use scope_network.Wcloud.History
use scope_network.Wcloud.History.{list_parsed, events_parsed, since_flag, show_table, show_events}
use scope_network.Wcloud.Main.{main, client_of}

ends-sent : {A : Type 0} (r : Result A × List HttpRequest) → (ends r).1 ≡ r.1
ends-sent (ok a, s) = refl
ends-sent (err e, s) = refl

prints_text-sent : (r : Result Text × List HttpRequest) → (prints_text r).1 ≡ r.1
prints_text-sent (ok a, s) = refl
prints_text-sent (err e, s) = refl

module _ (v : Service) (local : Local) (c : Client) (sent : List HttpRequest) where
  show_table-sent :
      (r : Result (List Deployment) × List HttpRequest) → (show_table v local c r).1 ≡ r.1
  show_table-sent (ok a, s) = refl
  show_table-sent (err e, s) = refl

  show_events-sent : (r : Result Text × List HttpRequest) → (show_events v local c r).1 ≡ r.1
  show_events-sent (ok a, s) = refl
  show_events-sent (err e, s) = refl

  print_config-sent : (r : Result Config × List HttpRequest) → (print_config v local c r).1 ≡ r.1
  print_config-sent (ok config, s) = prints_text-sent (local.encode_yaml config, s)
  print_config-sent (err e, s) = refl

  deploy_by_asks :
      (image version : Text) (services : List Text) (user : Result Text)
      → Asked c sent (deploy_by v local c image version services user sent).1
  deploy_by_asks image version services (err e) = nothing
  deploy_by_asks image version services (ok user) =
      let d = deployment_of image version user services in
      subst (Asked c sent) (sym (ends-sent (Wcloud.deploy v c d sent))) (deploy-Asked v c sent d)

  deploy_parts_asks :
      (set : List (Text × Text)) (parts : List Text)
      → Asked c sent (deploy_parts v local c set parts sent).1
  deploy_parts_asks set [] = nothing
  deploy_parts_asks set (image ∷ []) = nothing
  deploy_parts_asks set (image ∷ version ∷ []) =
      deploy_by_asks image version (services_of set)
        (user_of (username_of set []) local.current_user)
  deploy_parts_asks set (a ∷ b ∷ d ∷ parts) = nothing

  deploy_asks : (p : Parsed) → Asked c sent (deploy_parsed v local c p sent).1
  deploy_asks none = nothing
  deploy_asks (some (set, [])) = nothing
  deploy_asks (some (set, arg ∷ [])) = deploy_parts_asks set (split_two arg b':')
  deploy_asks (some (set, a ∷ b ∷ args)) = nothing

  list_asks : (p : Parsed) → Asked c sent (list_parsed v local c p sent).1
  list_asks none = nothing
  list_asks (some (set, args)) =
      subst (Asked c sent) (sym (show_table-sent (Wcloud.get_deployments v c _ _ sent)))
        (get_deployments-Asked v c sent _ _)

  events_asks : (p : Parsed) → Asked c sent (events_parsed v local c p sent).1
  events_asks none = nothing
  events_asks (some (set, args)) =
      subst (Asked c sent) (sym (show_events-sent (Wcloud.get_events v c _ _ sent)))
        (get_events-Asked v c sent _ _)

  set_loaded_asks : (r : Result Config) → Asked c sent (set_loaded v local c r sent).1
  set_loaded_asks (err e) = nothing
  set_loaded_asks (ok config) =
      subst (Asked c sent) (sym (ends-sent (Wcloud.set_config v c config sent)))
        (set_config-Asked v c sent config)

  config_asks : (args : List Text) → Asked c sent (Cli.config v local c args sent).1
  unfolding Cli.config
  config_asks [] =
      subst (Asked c sent) (sym (print_config-sent (Wcloud.get_config v c sent)))
        (get_config-Asked v c sent)
  config_asks (file_name ∷ []) = set_loaded_asks (load_config v local c file_name)
  config_asks (a ∷ b ∷ args) = nothing

  logs_asks : (args : List Text) → Asked c sent (Cli.logs v local c args sent).1
  unfolding Cli.logs
  logs_asks [] = nothing
  logs_asks (id ∷ []) =
      subst (Asked c sent) (sym (prints_text-sent (Wcloud.get_logs v c id sent)))
        (get_logs-Asked v c sent id)
  logs_asks (a ∷ b ∷ args) = nothing

if-Asked :
    (c : Client) (sent : List HttpRequest) (b : Bool) (x y : Exit × List HttpRequest)
    → Asked c sent x.1
    → Asked c sent y.1
    → Asked c sent (if b then x else y).1
if-Asked c sent true x y p q = p
if-Asked c sent false x y p q = q

-- A run of the program, whatever its arguments, sends at most one request, to the service that
-- BASE_URL names, or else to the default one, and with the token of SERVICE_TOKEN, or else with the
-- empty one.
pub main_asks_once :
    (v : Service) (local : Local) (args : List Text) (sent : List HttpRequest)
    → Asked (client_of local) sent (main v local args sent).1
unfolding main Cli.deploy History.list History.events
main_asks_once v local [] sent = nothing
main_asks_once v local (program ∷ []) sent = nothing
main_asks_once v local (program ∷ command ∷ args) sent =
    let c = client_of local in
    if-Asked c sent (same command (codes "deploy")) _ _
      (deploy_asks v local c sent (parse_flags known_flag args))
      (if-Asked c sent (same command (codes "list")) _ _
        (list_asks v local c sent (parse_flags (since_flag v local c) args))
        (if-Asked c sent (same command (codes "config")) _ _ (config_asks v local c sent args) (
          if-Asked c sent (same command (codes "logs")) _ _ (logs_asks v local c sent args) (
            if-Asked c sent (same command (codes "events")) _ _
              (events_asks v local c sent (parse_flags (since_flag v local c) args)) nothing))))
