-- ===== src/Wcloud/History.antt =====
-- tools/cmd/wcloud/cli.go: the commands `list` and `events`, over the time since a duration ago.
pub mod Window
use scope_network.Prelude.{
  ℕ, zero, suc, ◌+◌, ◌-◌, ◌*◌, ◌/◌, Bool, true, false, ◌&&◌, List, [], ◌∷◌, ◌++◌, Option, none,
  some, leb, if◌then◌else◌, map,
}
use scope_network.Prelude.Int.{ℤ, pos, negsuc}
use scope_network.Text.{Text, codes, same}
use scope_network.Text.Duration.{parse_duration}
use scope_network.Errors.{Error, Result, ok, err}
use scope_network.Wcloud
use scope_network.Wcloud.{Deployment, HttpRequest, Service, Client}
use scope_network.Wcloud.Flags.{Parsed, parse_flags}
use scope_network.Wcloud.Cli.{Exit, usage_shown, shows, prints, failed, Command, Local}

-- `through.Add(-since)`, in nanoseconds.
abbrev pub before : ℕ → ℤ → ℤ
before now (pos a) = if leb a now then pos (now - a) else negsuc (a - now - 1)
before now (negsuc a) = pos (now + a + 1)

-- `Unix` takes the whole seconds below.
abbrev pub unix : ℤ → ℤ
unix (pos n) = pos (n / 1000000000)
unix (negsuc n) = negsuc (n / 1000000000)

abbrev is_some : Option ℤ → Bool
is_some none = false
is_some (some d) = true

abbrev pub week : ℤ
week = pos (7 * 24 * 3600000000000)

module _ (v : Service) (local : Local) (c : Client) where
  abbrev pub since_flag : Text → Text → Bool
  since_flag name value = same name (codes "since") && is_some (parse_duration local.fraction value)

  abbrev or_before : Option ℤ → ℤ → ℤ
  or_before none old = old
  or_before (some d) old = d

  -- The variable of the flag: the last value that was set.
  abbrev pub since_of : List (Text × Text) → ℤ → ℤ
  since_of [] old = old
  since_of ((name, value) ∷ set) old =
      since_of set (or_before (parse_duration local.fraction value) old)

  abbrev pub row : Deployment → List Text
  row d = local.rfc_822 d.created_at ∷ d.id ∷ d.image_name ∷ d.version ∷ d.state ∷ []

  abbrev pub rows : List Deployment → List (List Text)
  rows [] = []
  rows (d ∷ ds) = row d ∷ rows ds

  abbrev pub show_table : Result (List Deployment) × List HttpRequest → Exit × List HttpRequest
  show_table (ok ds, sent) = (shows (rows ds), sent)
  show_table (err e, sent) = (failed e, sent)

  abbrev pub list_since : ℤ → Command
  list_since since sent =
      show_table
        (Wcloud.get_deployments v c (unix (before local.now since)) (unix (pos local.now)) sent)

  abbrev pub list_parsed : Parsed → Command
  list_parsed none sent = (usage_shown, sent)
  list_parsed (some (set, args)) sent = list_since (since_of set week) sent

  unfoldable pub list : List Text → Command
  unfolding parse_flags parse_duration
  list args = list_parsed (parse_flags since_flag args)

  -- `fmt.Println` of two texts puts a space between them.
  abbrev pub show_events : Result Text × List HttpRequest → Exit × List HttpRequest
  show_events (ok text, sent) = (prints (codes "events:  " ++ text), sent)
  show_events (err e, sent) = (failed e, sent)

  abbrev pub events_since : ℤ → Command
  events_since since sent =
      show_events
        (Wcloud.get_events v c (unix (before local.now since)) (unix (pos local.now)) sent)

  abbrev pub events_parsed : Parsed → Command
  events_parsed none sent = (usage_shown, sent)
  events_parsed (some (set, args)) sent = events_since (since_of set week) sent

  unfoldable pub events : List Text → Command
  unfolding parse_flags parse_duration
  events args = events_parsed (parse_flags since_flag args)
