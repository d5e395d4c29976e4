-- ===== src/Wcloud/Main.antt =====
-- tools/cmd/wcloud/cli.go: `main` and the variables that it takes from the environment.
pub mod Requests
use scope_network.Prelude.{List, [], ◌∷◌, Option, none, some, if◌then◌else◌}
use scope_network.Text.{Text, codes, same}
use scope_network.Wcloud.{HttpRequest, Service, Client, new_client}
use scope_network.Wcloud.Cli
use scope_network.Wcloud.Cli.{Exit, usage_shown, usage_failed, Command, Local}
use scope_network.Wcloud.History

abbrev or_default : Option Text → Text → Text
or_default none def = def
or_default (some value) def = value

abbrev pub env : Local → Text → Text → Text
env local key def = or_default (local.environment key) def

abbrev pub client_of : Local → Client
client_of local =
    new_client (env local (codes "SERVICE_TOKEN") [])
      (env local (codes "BASE_URL") (codes "https://cloud.weave.works"))

-- `args` is `os.Args`.
unfoldable pub main : Service → Local → List Text → Command
main v local (program ∷ command ∷ args) sent =
    if same command (codes "deploy")
    then Cli.deploy v local (client_of local) args sent
    else if same command (codes "list")
    then History.list v local (client_of local) args sent
    else if same command (codes "config")
    then Cli.config v local (client_of local) args sent
    else if same command (codes "logs")
    then Cli.logs v local (client_of local) args sent
    else if same command (codes "events")
    then History.events v local (client_of local) args sent
    else (usage_shown, sent)
main v local _ sent = (usage_failed, sent)
