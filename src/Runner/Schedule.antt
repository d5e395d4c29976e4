-- ===== src/Runner/Schedule.antt =====
-- tools/runner/runner.go: `getSchedule`, and `main` with `sequential` as it prints. The scheduler and
-- the codec of its messages are arguments.
pub mod Program
use scope_network.Prelude.{
  ℕ, Bool, true, false, ◌||◌, not, List, [], ◌∷◌, ◌++◌, ◌≡◌, ◌↔◌, ltb, length,
}
use scope_network.Prelude.Int.{ℤ}
use scope_network.Text.{Text, codes}
use scope_network.Text.Fields.{fields}
use scope_network.Errors.{Error, Result, ok, err}
use scope_network.Runner.{Test, get_tests, exit_status}
use scope_network.Runner.Run.{
  Line, needs, tests_error, no_hosts, Log, Setting, print_lines, run_sequential, summary,
}

-- The messages of tests in JSON, and the answer to a request to a URL with a body.
pub record Scheduler : Type 0 where
  pub encode_tests : List Text → Result Text
  pub post : Text → Text → Result Text
  pub decode_tests : Text → Result (List Text)

abbrev decoded : Scheduler → Result Text → Result (List Text)
decoded scheduler (err e) = err e
decoded scheduler (ok body) = scheduler.decode_tests body

abbrev posted : Scheduler → Text → Result Text → Result (List Text)
posted scheduler url (err e) = err e
posted scheduler url (ok body) = decoded scheduler (scheduler.post url body)

module _ (s : Setting) (getenv : Text → Text) (scheduler : Scheduler) where
  abbrev pub schedule_url : Text
  schedule_url =
      codes "http://"
      ++ (s.scheduler_host
          ++ (codes "/schedule/"
              ++ (getenv (codes "CIRCLE_PROJECT_REPONAME")
                  ++ (codes "-integration-"
                      ++ (getenv (codes "CIRCLE_BUILD_NUM")
                          ++ (codes "/"
                              ++ (getenv (codes "CIRCLE_NODE_TOTAL")
                                  ++ (codes "/" ++ getenv (codes "CIRCLE_NODE_INDEX")))))))))

  unfoldable pub get_schedule : List Text → Result (List Text)
  get_schedule tests = posted scheduler schedule_url (scheduler.encode_tests tests)

  -- The lines of `getTests`.
  abbrev pub needs_lines : List Test → List Line
  needs_lines [] = []
  needs_lines (t ∷ ts) = needs t.name t.hosts ∷ needs_lines ts

  abbrev pub with_debug : Setting
  with_debug = record s { verbose = s.verbose || ltb 0 (length (getenv (codes "DEBUG"))) }

  abbrev ended : Bool × Log → ℕ × Log
  ended (errored, log) = (exit_status errored, log)

  abbrev pub run_on : List Text → List Text → Result (List Test) → Log → ℕ × Log
  run_on names hosts (err e) log = (1, print_lines (tests_error e names ∷ []) log)
  run_on names [] (ok ts) log = (1, print_lines (no_hosts ∷ []) (print_lines (needs_lines ts) log))
  run_on names (host ∷ more) (ok ts) log =
      ended (run_sequential with_debug ts (host ∷ more) (print_lines (needs_lines ts) log))

  -- The status with which `main` exits, and the log that it leaves.
  unfoldable pub run_main : List Text → Log → ℕ × Log
  unfolding get_tests get_schedule fields run_sequential
  run_main names log =
      run_on names (fields (getenv (codes "HOSTS"))) (get_tests s.use_scheduler get_schedule names)
        log
