-- ===== src/Runner/Console/Alone.antt =====
-- tools/runner/runner.go: `run` as one goroutine at the console.
use scope_network.Prelude.{
  Bool, true, false, ◌&&◌, List, [], ◌∷◌, ◌++◌, ◌≡◌, refl, sym, ◌∙◌, append_assoc, append-nil,
  Option, none, some, if◌then◌else◌,
}
use scope_network.Text.{Text}
use scope_network.Errors.{Error}
use scope_network.Runner.{Test, replace_hosts}
use scope_network.Runner.Run.{
  Line, running, scheduler_error, Recording, after_post, Log, Setting, error_of, is_error,
  print_lines, report_lines, update_scheduler, run,
}
use scope_network.Runner.Console.{Part, block, alone, Launch, told, parts_of_run}

abbrev pub lines_of : List Part → List Line
lines_of [] = []
lines_of (block ls ∷ ps) = ls ++ lines_of ps
lines_of (alone e ∷ ps) = scheduler_error e ∷ lines_of ps

-- What the child comes to and what the scheduler answers in a run of the test.
abbrev pub launch_of : Setting → Test → List Text → Log → Launch
launch_of s t hosts log =
    let log₁ = print_lines (running t.name hosts ∷ []) log in
    let a = s.attempt log₁ t.name (replace_hosts hosts s.environ) in
    record {
      name = t.name;
      hosts = hosts;
      attempt = a;
      answer =
          s.post (print_lines (report_lines s.verbose t.name a) log₁)
            (record { host = s.scheduler_host; test = t.name; duration = a.duration });
    }

told_lines :
    (b : Bool) (e : Option Error) (log : Log) (rs : List Recording)
    → (if b then after_post e (record log { recorded = rs }) else log).console
      ≡ log.console ++ lines_of (told b e)
told_lines true none log rs = sym (append-nil log.console)
told_lines true (some x) log rs = refl
told_lines false e log rs = sym (append-nil log.console)

-- A run on its own prints the lines of its parts, in their order.
run-parts_of_run :
    (s : Setting) (t : Test) (hosts : List Text) (log : Log)
    → (run s t hosts log).1.console
      ≡ log.console ++ lines_of (parts_of_run s.verbose s.use_scheduler (launch_of s t hosts log))
unfolding run parts_of_run update_scheduler
run-parts_of_run s t hosts log =
    let l = launch_of s t hosts log in
    let lines = report_lines s.verbose t.name l.attempt in
    let log₂ = print_lines lines (print_lines (running t.name hosts ∷ []) log) in
    let b = is_error (error_of l.attempt.wait) && s.use_scheduler in
    let tail = lines_of (told b l.answer) in
    told_lines b l.answer log₂ _
    ∙ (append_assoc (log.console ++ running t.name hosts ∷ []) lines tail
        ∙ append_assoc log.console (running t.name hosts ∷ []) (lines ++ tail))
