-- ===== src/Wcloud/Cli/Deploying.antt =====
-- tools/cmd/wcloud/cli.go, `deploy`: from a command line to the deployment that is sent.
use scope_network.Prelude.{ℕ, ◌≡◌, ◌≢◌, refl, ap, List, [], ◌∷◌, ◌++◌, none, some, arith}
use scope_network.Text.{Text, codes, same}
use scope_network.Text.Split.{split_two, split_two-append, Lacks}
use scope_network.Errors.{Result, ok, err}
use scope_network.Wcloud
use scope_network.Wcloud.{HttpRequest, Service, Client}
use scope_network.Wcloud.Flags.{Parsed, parse_flags}
use scope_network.Wcloud.Cli.{
  usage_shown, Local, known_flag, username_of, services_of, user_of, deployment_of, ends, deploy,
  deploy_by, deploy_parts, deploy_parsed,
}

-- The flags that name some services.
abbrev pub service_flags : List Text → List Text
service_flags [] = []
service_flags (s ∷ ss) = codes "-service" ∷ s ∷ service_flags ss

abbrev service_settings : List Text → List (Text × Text)
service_settings [] = []
service_settings (s ∷ ss) = (codes "service", s) ∷ service_settings ss

services_of_settings :
    (ss : List Text) (user : Text)
    → services_of (service_settings ss ++ (codes "u", user) ∷ []) ≡ ss
unfolding same
services_of_settings [] user = refl
services_of_settings (s ∷ ss) user = ap (◌∷◌ s) (services_of_settings ss user)

username_of_settings :
    (ss : List Text) (user old : Text)
    → username_of (service_settings ss ++ (codes "u", user) ∷ []) old ≡ user
unfolding same
username_of_settings [] user old = refl
username_of_settings (s ∷ ss) user old = username_of_settings ss user old

parse_target :
    (d : ℕ) (target user : Text)
    → d ≢ b'-'
    → parse_flags known_flag (codes "-u" ∷ user ∷ (d ∷ target) ∷ [])
      ≡ some ((codes "u", user) ∷ [], (d ∷ target) ∷ [])
unfolding parse_flags same
parse_target d target user h = ground arith

parse_services :
    (ss : List Text) (d : ℕ) (target user : Text)
    → d ≢ b'-'
    → parse_flags known_flag (service_flags ss ++ codes "-u" ∷ user ∷ (d ∷ target) ∷ [])
      ≡ some (service_settings ss ++ (codes "u", user) ∷ [], (d ∷ target) ∷ [])
unfolding parse_flags same
parse_services [] d target user h = parse_target d target user h
parse_services (s ∷ ss) d target user h = rw (parse_services ss d target user h) refl

-- A command line of any number of services, a user that is not empty and `image:version`, with no
-- colon in the image and no dash before it, makes the one call of the service that deploys just
-- that: the image, the version, the user, and the services in their order.
pub deploy_of_flags :
    (v : Service) (local : Local) (client : Client) (services : List Text) (u d : ℕ)
    (user image version : Text) (sent : List HttpRequest)
    → d ≢ b'-'
    → Lacks b':' (d ∷ image)
    → deploy v local client
        (service_flags services ++ codes "-u" ∷ (u ∷ user) ∷ ((d ∷ image) ++ b':' ∷ version) ∷ [])
        sent
      ≡ ends (Wcloud.deploy v client (deployment_of (d ∷ image) version (u ∷ user) services) sent)
unfolding deploy
deploy_of_flags v local client services u d user image version sent h lacks =
    rw
      (
        parse_services services d (image ++ b':' ∷ version) (u ∷ user) h,
        split_two-append (d ∷ image) version b':' lacks,
        services_of_settings services (u ∷ user),
        username_of_settings services (u ∷ user) [],
      )
      refl

ends-ne-usage :
    {A : Type 0} (r : Result A) (sent : List HttpRequest) → (ends (r, sent)).0 ≢ usage_shown
ends-ne-usage (ok a) sent e = cc
ends-ne-usage (err x) sent e = cc

-- A command line for which `deploy` shows the usage sends nothing.
usage_sends_nothing :
    (v : Service) (local : Local) (client : Client) (args : List Text) (sent : List HttpRequest)
    → (deploy v local client args sent).0 ≡ usage_shown
    → (deploy v local client args sent).1 ≡ sent
unfolding deploy
usage_sends_nothing v local client args sent e = by_parsed (parse_flags known_flag args) e
  where
    by_user :
        (image version : Text) (services : List Text) (user : Result Text)
        → (deploy_by v local client image version services user sent).0 ≡ usage_shown
        → (deploy_by v local client image version services user sent).1 ≡ sent
    by_user image version services (ok user) f = absurd (ends-ne-usage _ _ f)
    by_user image version services (err x) f = refl

    by_parts :
        (set : List (Text × Text)) (parts : List Text)
        → (deploy_parts v local client set parts sent).0 ≡ usage_shown
        → (deploy_parts v local client set parts sent).1 ≡ sent
    by_parts set [] f = refl
    by_parts set (image ∷ []) f = refl
    by_parts set (image ∷ version ∷ []) f =
        by_user image version (services_of set) (user_of (username_of set []) local.current_user) f
    by_parts set (a ∷ b ∷ c ∷ parts) f = refl

    by_parsed :
        (p : Parsed)
        → (deploy_parsed v local client p sent).0 ≡ usage_shown
        → (deploy_parsed v local client p sent).1 ≡ sent
    by_parsed none f = refl
    by_parsed (some (set, [])) f = refl
    by_parsed (some (set, arg ∷ [])) f = by_parts set (split_two arg b':') f
    by_parsed (some (set, a ∷ b ∷ args)) f = refl
