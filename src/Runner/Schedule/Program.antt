-- ===== src/Runner/Schedule/Program.antt =====
-- tools/runner/runner.go: what a sequential run of the program does.
use scope_network.Prelude.{ℕ, List, [], ◌∷◌, ◌++◌, ◌≡◌, ◌↔◌}
use scope_network.Text.{Text}
use scope_network.Errors.{Result, ok, err}
use scope_network.Runner.{Test}
use scope_network.Runner.Run.{Line, tests_error, no_hosts, Log, Setting, print_lines, summary}
use scope_network.Runner.Run.Account.{started, reported, names, recorded_names, if_true}
use scope_network.Runner.Schedule.{Scheduler, needs_lines}

module _ (s : Setting) (getenv : Text → Text) (scheduler : Scheduler) where
  -- The tests that could be had or not, and the hosts, decide the exit status and what is printed and
  -- recorded.
  abbrev pub EndsBy : List Text → Result (List Test) → List Text → ℕ → Log → Log → Type 0
  EndsBy args (err e) hosts status log log' =
      (status ≡ 1) × (log' ≡ print_lines (tests_error e args ∷ []) log)
  EndsBy args (ok ts) [] status log log' =
      (status ≡ 1)
      × (log'.console ≡ log.console ++ (needs_lines s getenv scheduler ts ++ no_hosts ∷ []))
      × (log'.recorded ≡ log.recorded)
  EndsBy args (ok ts) (host ∷ more) status log log' =
      (lines : List Line) × (failed : List Test) × (log'.console
        ≡ log.console ++ (needs_lines s getenv scheduler ts ++ (lines ++ summary ts failed)))
      × (started lines ≡ names ts)
      × (names failed ≡ reported lines)
      × (recorded_names log'.recorded
          ≡ recorded_names log.recorded ++ if_true s.use_scheduler (reported lines))
      × ((status ≡ 0) ↔ (reported lines ≡ []))
