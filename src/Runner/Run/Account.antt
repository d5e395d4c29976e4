-- ===== src/Runner/Run/Account.antt =====
-- tools/runner/runner.go: what a run of one test tells the console and the scheduler.
use scope_network.Prelude.{
  ℕ, ◌≡◌, refl, sym, ap, ◌∙◌, Bool, true, false, ◌&&◌, ◌||◌, List, [], ◌∷◌, ◌++◌, append_assoc,
  append-nil, Option, none, some, map, if◌then◌else◌,
}
use scope_network.Text.{Text}
use scope_network.Errors.{Error}
use scope_network.Runner.{Test, replace_hosts}
use scope_network.Runner.Run.{
  Line, running, finished_with_error, output, empty_line, scheduler_error, Recording, after_post,
  Log, Attempt, Setting, error_of, is_error, print_lines, outcome_line, report_lines,
  update_scheduler, run,
}

-- What each line says, one after the other.
abbrev pub gathered : (Line → List Text) → List Line → List Text
gathered f [] = []
gathered f (x ∷ xs) = f x ++ gathered f xs

gathered-append :
    (f : Line → List Text) (xs ys : List Line)
    → gathered f (xs ++ ys) ≡ gathered f xs ++ gathered f ys
gathered-append f [] ys = refl
gathered-append f (x ∷ xs) ys =
    rw (gathered-append f xs ys) (sym (append_assoc (f x) (gathered f xs) (gathered f ys)))

abbrev pub started_by : Line → List Text
started_by (running name hosts) = name ∷ []
started_by _ = []

abbrev pub error_by : Line → List Text
error_by (finished_with_error name duration e) = name ∷ []
error_by _ = []

-- The tests that the console says were started, and those that it says ended with an error.
abbrev pub started : List Line → List Text
started = gathered started_by

abbrev pub reported : List Line → List Text
reported = gathered error_by

abbrev pub names : List Test → List Text
names = map (λ t. t.name)

abbrev pub recorded_names : List Recording → List Text
recorded_names = map (λ r. r.test)

-- From one log to the next some lines were printed, by which the tests `ts` were started and `failed`
-- ended with an error, and the tests `told` were reported to the scheduler.
pub record Ran (ts failed told : List Text) (log log' : Log) : Type 0 where
  pub lines : List Line
  pub printed : log'.console ≡ log.console ++ lines
  pub starts : started lines ≡ ts
  pub errors : reported lines ≡ failed
  pub tells : recorded_names log'.recorded ≡ recorded_names log.recorded ++ told

pub Ran-append :
    {a b c a' b' c' : List Text} (log mid log' : Log)
    → Ran a b c log mid
    → Ran a' b' c' mid log'
    → Ran (a ++ a') (b ++ b') (c ++ c') log log'
Ran-append {c} {c'} log mid log' p q = record {
  lines = p.lines ++ q.lines;
  printed =
      q.printed ∙ (ap (λ l. l ++ q.lines) p.printed ∙ append_assoc log.console p.lines q.lines);
  starts = gathered-append started_by p.lines q.lines ∙ rw (p.starts, q.starts) refl;
  errors = gathered-append error_by p.lines q.lines ∙ rw (p.errors, q.errors) refl;
  tells = q.tells ∙ (ap (λ l. l ++ c') p.tells ∙ append_assoc (recorded_names log.recorded) c c');
}

Ran-print :
    (lines : List Line) (log : Log)
    → Ran (started lines) (reported lines) [] log (print_lines lines log)
Ran-print lines log = record {
  lines = lines;
  printed = refl;
  starts = refl;
  errors = refl;
  tells = sym (append-nil (recorded_names log.recorded));
}

recorded_names-append :
    (rs : List Recording) (r : Recording)
    → recorded_names (rs ++ r ∷ []) ≡ recorded_names rs ++ r.test ∷ []
recorded_names-append [] r = refl
recorded_names-append (q ∷ rs) r = ap (◌∷◌ q.test) (recorded_names-append rs r)

update_scheduler-Ran :
    (s : Setting) (t : Text) (duration : ℕ) (log : Log)
    → Ran [] [] (t ∷ []) log (update_scheduler s t duration log)
unfolding update_scheduler
update_scheduler-Ran s t duration log = posted (s.post log r)
  where
    r : Recording
    r = record { host = s.scheduler_host; test = t; duration = duration }

    after : Log
    after = record log { recorded = log.recorded ++ r ∷ [] }

    posted : (e : Option Error) → Ran [] [] (t ∷ []) log (after_post e after)
    posted none = record {
      lines = [];
      printed = sym (append-nil log.console);
      starts = refl;
      errors = refl;
      tells = recorded_names-append log.recorded r;
    }
    posted (some x) = record {
      lines = scheduler_error x ∷ [];
      printed = refl;
      starts = refl;
      errors = refl;
      tells = recorded_names-append log.recorded r;
    }

pub Ran-refl : (log : Log) → Ran [] [] [] log log
Ran-refl log = record {
  lines = [];
  printed = sym (append-nil log.console);
  starts = refl;
  errors = refl;
  tells = sym (append-nil (recorded_names log.recorded));
}

abbrev pub if_true : Bool → List Text → List Text
if_true b names = if b then names else []

told_if :
    (s : Setting) (b : Bool) (t : Text) (duration : ℕ) (log : Log)
    → Ran [] [] (if_true b (t ∷ [])) log (if b then update_scheduler s t duration log else log)
told_if s true t duration log = update_scheduler-Ran s t duration log
told_if s false t duration log = Ran-refl log

-- Of the block of a run only its first line says something of the test.
report_gathered :
    (f : Line → List Text) (verbose : Bool) (t : Text) (a : Attempt)
    → f (output a.output) ≡ []
    → f empty_line ≡ []
    → gathered f (report_lines verbose t a) ≡ f (outcome_line t a.duration (error_of a.wait))
unfolding report_lines
report_gathered f verbose t a p q =
    ap (λ z. first ++ z) (extra (is_error (error_of a.wait) || verbose)) ∙ append-nil first
  where
    first : List Text
    first = f (outcome_line t a.duration (error_of a.wait))

    extra : (b : Bool) → gathered f (if b then output a.output ∷ empty_line ∷ [] else []) ≡ []
    extra true = rw (p, q) refl
    extra false = refl

started_by-outcome_line :
    (t : Text) (duration : ℕ) (e : Option Error) → started_by (outcome_line t duration e) ≡ []
started_by-outcome_line t duration none = refl
started_by-outcome_line t duration (some x) = refl

error_by-outcome_line :
    (t : Text) (duration : ℕ) (e : Option Error)
    → error_by (outcome_line t duration e) ≡ if_true (is_error e) (t ∷ [])
error_by-outcome_line t duration none = refl
error_by-outcome_line t duration (some x) = refl

report_starts : (verbose : Bool) (t : Text) (a : Attempt) → started (report_lines verbose t a) ≡ []
report_starts verbose t a =
    report_gathered started_by verbose t a refl refl
    ∙ started_by-outcome_line t a.duration (error_of a.wait)

report_errors :
    (verbose : Bool) (t : Text) (a : Attempt)
    → reported (report_lines verbose t a) ≡ if_true (is_error (error_of a.wait)) (t ∷ [])
report_errors verbose t a =
    report_gathered error_by verbose t a refl refl
    ∙ error_by-outcome_line t a.duration (error_of a.wait)

pub run-Ran :
    (s : Setting) (t : Test) (hosts : List Text) (log : Log)
    → let (errored, log') = run s t hosts log in
      Ran
        (t.name ∷ [])
        (if_true errored (t.name ∷ []))
        (if_true (errored && s.use_scheduler) (t.name ∷ []))
        log
        log'
unfolding run
run-Ran s t hosts log =
    let log₁ = print_lines (running t.name hosts ∷ []) log in
    let a = s.attempt log₁ t.name (replace_hosts hosts s.environ) in
    let lines = report_lines s.verbose t.name a in
    let log₂ = print_lines lines log₁ in
    let reports =
      Ran-append log₁ log₂ _ (Ran-print lines log₁)
        (told_if s (is_error (error_of a.wait) && s.use_scheduler) t.name a.duration log₂) in
    Ran-append log log₁ _ (Ran-print (running t.name hosts ∷ []) log) (
      rw
        (
          report_starts s.verbose t.name a,
          report_errors s.verbose t.name a,
          append-nil (if_true (is_error (error_of a.wait)) (t.name ∷ [])),
        )
        at reports)
