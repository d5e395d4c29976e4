-- ===== src/Wcloud/History/Window.antt =====
-- tools/cmd/wcloud/cli.go, `list` and `events`: the flag `since` and the window that is asked for.
use scope_network.Prelude.{ℕ, ◌*◌, ◌≤◌, ◌≡◌, refl, Bool, true, List, [], ◌∷◌, ◌++◌, some}
use scope_network.Prelude.Int.{pos}
use scope_network.Text.{Text, codes, same}
use scope_network.Text.Decimal.{itoa}
use scope_network.Text.Duration.{parse_duration_hours}
use scope_network.Wcloud
use scope_network.Wcloud.{HttpRequest, Service, Client}
use scope_network.Wcloud.Flags.{parse_flags}
use scope_network.Wcloud.Cli.{Local}
use scope_network.Wcloud.History.{before, unix, since_flag, list, events, show_table, show_events}

-- The arguments `-since` and `n` with the unit of hours.
abbrev pub since_hours : ℕ → List Text
since_hours n = codes "-since" ∷ (itoa n ++ codes "h") ∷ []

parse_taken :
    (accepts : Text → Text → Bool) (v : Text)
    → accepts (codes "since") v ≡ true
    → parse_flags accepts (codes "-since" ∷ v ∷ []) ≡ some ((codes "since", v) ∷ [], [])
unfolding parse_flags
parse_taken accepts v e = rw e refl

module _ (v : Service) (local : Local) (c : Client)
    (exact : local.fraction [] 3600000000000 ≡ 0) where
  parsed_hours :
      (n : ℕ)
      → n ≤ 2562047
      → parse_flags (since_flag v local c) (since_hours n)
        ≡ some ((codes "since", itoa n ++ codes "h") ∷ [], [])
  unfolding same
  parsed_hours n h =
      parse_taken (since_flag v local c) (itoa n ++ codes "h")
        (rw (parse_duration_hours local.fraction n exact h) refl)

  -- With `-since` and a number of hours, `list` and `events` ask for the time from so many hours ago
  -- up to now, in seconds, if the hours are at most 2562047.
  pub since_hours_window :
      (n : ℕ) (sent : List HttpRequest)
      → n ≤ 2562047
      → let from = unix (before local.now (pos (n * 3600000000000))) in
        let through = unix (pos local.now) in
        (list v local c (since_hours n) sent
          ≡ show_table v local c (Wcloud.get_deployments v c from through sent))
        × (events v local c (since_hours n) sent
            ≡ show_events v local c (Wcloud.get_events v c from through sent))
  unfolding list events
  since_hours_window n sent h =
      let known = parse_duration_hours local.fraction n exact h in
      (rw (parsed_hours n h, known) refl, rw (parsed_hours n h, known) refl)
