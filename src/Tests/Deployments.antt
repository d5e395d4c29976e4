-- ===== src/Tests/Deployments.antt =====
-- tools/cmd/wcloud at concrete values.
use scope_network.Prelude.{◌≡◌, refl, arith, [], ◌∷◌, none, false}
use scope_network.Prelude.Int.{pos}
use scope_network.Text.{codes}
use scope_network.Errors.{ok}
use scope_network.Wcloud.{Deployment, Config, Service, Client, deploy, get_deployments, get_events}
use scope_network.Wcloud.Exchange.{Asked}
use scope_network.Wcloud.Cli
use scope_network.Wcloud.History
use scope_network.Wcloud.History.{show_table, show_events}
use scope_network.Wcloud.History.Window.{since_hours, since_hours_window}
use scope_network.Wcloud.Main.{client_of, main}
use scope_network.Wcloud.Main.Requests.{main_asks_once}
use scope_network.Wcloud.Cli.{Exit, Local, deployment_of, ends}
use scope_network.Wcloud.Cli.Deploying.{deploy_of_flags}

abbrev empty_config : Config
empty_config = record {
  repo_url = [];
  repo_branch = [];
  repo_path = [];
  repo_key = [];
  kubeconfig_path = [];
  auto_apply = false;
  notifications = [];
  config_file_black_list = [];
  commit_message_template = [];
}

-- A service that takes every deployment.
abbrev service : Service
service = record {
  refuses = λ method url. none;
  answer = λ sent r. ok (record { status_code = 204; status = codes "204 No Content"; body = [] });
  read_all = λ body. ok body;
  encode_deployment = λ d. ok d.image_name;
  decode_deployments = λ body. ok [];
  encode_config = λ config. ok config.repo_url;
  decode_config = λ body. ok empty_config;
}

abbrev client : Client
client = record { token = codes "t"; base_url = codes "https://cloud.weave.works" }

abbrev local : Local
local = record {
  current_user = ok (codes "root");
  read_file = λ name. ok [];
  decode_yaml = λ text. ok empty_config;
  encode_yaml = λ config. ok [];
  environment = λ key. none;
  now = 1_500_000_000_000_000_000;
  fraction = λ digits unit. 0;
  rfc_822 = λ time. time;
}

abbrev image : Deployment
image = deployment_of (codes "app") (codes "v1") (codes "joe") []

deploy_of_flags_example :
    Cli.deploy service local client
      (codes "-service" ∷ codes "web" ∷ codes "-u" ∷ codes "joe" ∷ codes "app:v1" ∷ [])
      []
    ≡ ends (
        deploy service client
          (deployment_of (codes "app") (codes "v1") (codes "joe") (codes "web" ∷ []))
          [])
deploy_of_flags_example =
    deploy_of_flags service local client (codes "web" ∷ []) b'j' b'a' (codes "oe") (codes "pp")
      (codes "v1") [] (omega arith) (omega arith)

main_asks_once_example :
    Asked
      (client_of local)
      []
      (main service local (codes "wcloud" ∷ codes "logs" ∷ codes "d1" ∷ []) []).1
main_asks_once_example =
    main_asks_once service local (codes "wcloud" ∷ codes "logs" ∷ codes "d1" ∷ []) []

-- A day before the clock of `local`.
since_hours_window_example :
    (History.list service local client (since_hours 24) []
      ≡ show_table service local client
          (get_deployments service client (pos 1_499_913_600) (pos 1_500_000_000) []))
    × (History.events service local client (since_hours 24) []
        ≡ show_events service local client
            (get_events service client (pos 1_499_913_600) (pos 1_500_000_000) []))
since_hours_window_example = since_hours_window service local client refl 24 [] (omega arith)
