-- ===== src/Runner/Run.antt =====
-- tools/runner/runner.go: `run` of one test, `summary`, and `sequential` as it prints and reports.
-- The child process and its clock are arguments: what a start of the test comes to. Lines of the
-- console are values with what their texts show, and durations are in nanoseconds.
pub mod Account
pub mod Reported
use scope_network.Prelude.{
  ℕ, Bool, true, false, ◌&&◌, ◌||◌, List, [], ◌∷◌, ◌++◌, Option, none, some, ltb, length,
  if◌then◌else◌,
}
use scope_network.Prelude.Int.{ℤ}
use scope_network.Text.{Text, codes}
use scope_network.Errors.{Error, timed_out}
use scope_network.Runner.{Test, replace_hosts}

pub data Line : Type 0 where
  running : Text → List Text → Line
  finished_with_error : Text → ℕ → Error → Line
  finished_with_success : Text → ℕ → Line
  output : Text → Line
  empty_line : Line
  scheduler_error : Error → Line
  ran_failed : ℕ → ℕ → Line
  failure : Text → Line
  ran_succeeded : ℕ → Line
  needs : Text → ℤ → Line
  tests_error : Error → List Text → Line
  no_hosts : Line

-- The request that reports a test to the scheduler.
pub record Recording : Type 0 where
  pub host : Text
  pub test : Text
  pub duration : ℕ

pub record Log : Type 0 where
  pub console : List Line
  pub recorded : List Recording

-- What the `select` waits for: the end of the child, or the timer.
pub data Wait : Type 0 where
  ended : Option Error → Wait
  timer : Wait

pub record Attempt : Type 0 where
  pub wait : Wait
  pub output : Text
  pub duration : ℕ

-- The flags and variables of the program, the environment, what a child with an environment comes
-- to, and the answer of the scheduler.
pub record Setting : Type 0 where
  pub verbose : Bool
  pub use_scheduler : Bool
  pub scheduler_host : Text
  pub environ : List Text
  pub attempt : Log → Text → List Text → Attempt
  pub post : Log → Recording → Option Error

abbrev pub error_of : Wait → Option Error
error_of (ended e) = e
error_of timer = some timed_out

abbrev pub print_lines : List Line → Log → Log
print_lines lines log = record log { console = log.console ++ lines }

abbrev pub outcome_line : Text → ℕ → Option Error → Line
outcome_line name duration none = finished_with_success name duration
outcome_line name duration (some e) = finished_with_error name duration e

abbrev pub is_error : Option Error → Bool
is_error none = false
is_error (some e) = true

-- The block that `run` prints at its end, under the lock of the console.
unfoldable pub report_lines : Bool → Text → Attempt → List Line
report_lines verbose name a =
    outcome_line name a.duration (error_of a.wait)
    ∷ (if is_error (error_of a.wait) || verbose then output a.output ∷ empty_line ∷ [] else [])

abbrev pub after_post : Option Error → Log → Log
after_post none log = log
after_post (some e) log = print_lines (scheduler_error e ∷ []) log

module _ (s : Setting) where
  unfoldable pub update_scheduler : Text → ℕ → Log → Log
  update_scheduler test duration log =
      let r : Recording = record { host = s.scheduler_host; test = test; duration = duration } in
      after_post (s.post log r) (record log { recorded = log.recorded ++ r ∷ [] })

  -- After the start, of which the attempt is known.
  abbrev pub finish : Text → Attempt → Log → Bool × Log
  finish name a log =
      let log₁ = print_lines (report_lines s.verbose name a) log in
      let failed = is_error (error_of a.wait) in
      (failed, if failed && s.use_scheduler then update_scheduler name a.duration log₁ else log₁)

  unfoldable pub run : Test → List Text → Log → Bool × Log
  unfolding replace_hosts report_lines update_scheduler
  run t hosts log =
      let log₁ = print_lines (running t.name hosts ∷ []) log in
      finish t.name (s.attempt log₁ t.name (replace_hosts hosts s.environ)) log₁

  abbrev pub keep_failed : Bool → Test → List Test → List Test
  keep_failed true t failed = failed ++ t ∷ []
  keep_failed false t failed = failed

  -- The loop of `sequential`.
  unfoldable pub run_all : List Test → List Text → List Test → Log → List Test × Log
  unfolding run
  run_all [] hosts failed log = (failed, log)
  run_all (t ∷ ts) hosts failed log =
      let (errored, log₁) = run t hosts log in run_all ts hosts (keep_failed errored t failed) log₁

abbrev pub failures : List Test → List Line
failures [] = []
failures (t ∷ ts) = failure t.name ∷ failures ts

unfoldable pub summary : List Test → List Test → List Line
summary tests failed =
    if ltb 0 (length failed)
    then ran_failed (length tests) (length failed) ∷ failures failed
    else ran_succeeded (length tests) ∷ []

unfoldable pub run_sequential : Setting → List Test → List Text → Log → Bool × Log
unfolding run_all summary
run_sequential s ts hosts log =
    let (failed, log₁) = run_all s ts hosts [] log in
    (ltb 0 (length failed), print_lines (summary ts failed) log₁)
