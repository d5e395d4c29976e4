-- ===== src/Wcloud/Cli.antt =====
-- tools/cmd/wcloud/cli.go: the commands `deploy`, `config` and `logs`.
pub mod Deploying
use scope_network.Prelude.{
  ℕ, Bool, true, false, not, ◌&&◌, ◌||◌, List, [], ◌∷◌, ◌++◌, Option, none, some, ◌==◌,
  if◌then◌else◌,
}
use scope_network.Text.{Text, codes, same}
use scope_network.Text.Split.{split_two}
use scope_network.Prelude.Int.{ℤ, pos}
use scope_network.Errors.{Error, Result, ok, err}
use scope_network.Wcloud
use scope_network.Wcloud.Flags.{Parsed, parse_flags}
use scope_network.Wcloud.{Deployment, Config, HttpRequest, Service, Client}

-- How a command ends: it returns, maybe after the usage, a text or a table of rows, or it exits with
-- status 1 after the usage or after an error.
pub data Exit : Type 0 where
  finished usage_shown usage_failed : Exit
  prints : Text → Exit
  shows : List (List Text) → Exit
  failed : Error → Exit

abbrev pub Command : Type 0
Command = List HttpRequest → Exit × List HttpRequest

-- The user, the files and YAML; the environment; the clock in nanoseconds, the products that
-- time.ParseDuration makes in `float64`, and `Format(time.RFC822)`.
pub record Local : Type 0 where
  pub current_user : Result Text
  pub read_file : Text → Result Text
  pub decode_yaml : Text → Result Config
  pub encode_yaml : Config → Result Text
  pub environment : Text → Option Text
  pub now : ℕ
  pub fraction : Text → ℕ → ℕ
  pub rfc_822 : Text → Text

abbrev pub exit_status : Exit → ℕ
exit_status (failed e) = 1
exit_status usage_failed = 1
exit_status _ = 0

-- The variable of the flag `u`: the last value that was set.
abbrev pub username_of : List (Text × Text) → Text → Text
username_of [] old = old
username_of ((name, value) ∷ set) old =
    username_of set (if same name (codes "u") then value else old)

-- `ArrayFlags`: the values in their order.
abbrev pub services_of : List (Text × Text) → List Text
services_of [] = []
services_of ((name, value) ∷ set) =
    let rest = services_of set in if same name (codes "service") then value ∷ rest else rest

abbrev pub known_flag : Text → Text → Bool
known_flag name value = same name (codes "u") || same name (codes "service")

abbrev pub user_of : Text → Result Text → Result Text
user_of [] current = current
user_of (c ∷ s) current = ok (c ∷ s)

-- The fields that `deploy` leaves out are empty.
abbrev pub deployment_of : Text → Text → Text → List Text → Deployment
deployment_of image version user services = record {
  id = [];
  created_at = [];
  image_name = image;
  version = version;
  priority = pos 0;
  state = [];
  triggering_user = user;
  intended_services = services;
}

abbrev pub ends : {A : Type 0} → Result A × List HttpRequest → Exit × List HttpRequest
ends (ok a, sent) = (finished, sent)
ends (err e, sent) = (failed e, sent)

abbrev pub prints_text : Result Text × List HttpRequest → Exit × List HttpRequest
prints_text (ok text, sent) = (prints text, sent)
prints_text (err e, sent) = (failed e, sent)

abbrev show_usage : Command
show_usage sent = (usage_shown, sent)

module _ (v : Service) (local : Local) (c : Client) where
  abbrev pub deploy_by : Text → Text → List Text → Result Text → Command
  deploy_by image version services (err e) sent = (failed e, sent)
  deploy_by image version services (ok user) sent =
      ends (Wcloud.deploy v c (deployment_of image version user services) sent)

  abbrev pub deploy_parts : List (Text × Text) → List Text → Command
  deploy_parts set (image ∷ version ∷ []) =
      deploy_by image version (services_of set) (user_of (username_of set []) local.current_user)
  deploy_parts set _ = show_usage

  abbrev pub deploy_parsed : Parsed → Command
  deploy_parsed none = show_usage
  deploy_parsed (some (set, arg ∷ [])) = deploy_parts set (split_two arg b':')
  deploy_parsed (some (set, _)) = show_usage

  unfoldable pub deploy : List Text → Command
  unfolding parse_flags split_two
  deploy args = deploy_parsed (parse_flags known_flag args)

  unfoldable pub logs : List Text → Command
  logs (id ∷ []) sent = prints_text (Wcloud.get_logs v c id sent)
  logs _ sent = (usage_shown, sent)

abbrev has_slash : Text → Bool
has_slash [] = false
has_slash (c ∷ s) = c == b'/' || has_slash s

abbrev last_dot : Text → Text → Text
last_dot s [] = if has_slash s then [] else s
last_dot s (c ∷ t) = c ∷ t

-- `filepath.Ext`: from the last dot on, if no slash follows it.
unfoldable pub extension : Text → Text
extension [] = []
extension (c ∷ s) = let rest = extension s in if c == b'.' then last_dot (c ∷ s) rest else rest

module _ (v : Service) (local : Local) (c : Client) where
  abbrev decode_config : Text → Result Text → Result Config
  decode_config ext (err e) = err e
  decode_config ext (ok text) =
      if same ext (codes ".yaml") || same ext (codes ".yml")
      then local.decode_yaml text
      else v.decode_config text

  unfoldable pub load_config : Text → Result Config
  unfolding extension
  load_config file_name = decode_config (extension file_name) (local.read_file file_name)

  abbrev pub set_loaded : Result Config → Command
  set_loaded (err e) sent = (failed e, sent)
  set_loaded (ok config) sent = ends (Wcloud.set_config v c config sent)

  abbrev pub print_config : Result Config × List HttpRequest → Exit × List HttpRequest
  print_config (err e, sent) = (failed e, sent)
  print_config (ok config, sent) = prints_text (local.encode_yaml config, sent)

  unfoldable pub config : List Text → Command
  unfolding load_config
  config [] sent = print_config (Wcloud.get_config v c sent)
  config (file_name ∷ []) sent = set_loaded (load_config file_name) sent
  config _ sent = (usage_shown, sent)
