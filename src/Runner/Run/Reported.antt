-- ===== src/Runner/Run/Reported.antt =====
-- tools/runner/runner.go: what the console and the scheduler are told of a sequential run.
use scope_network.Prelude.{
  ◌≡◌, ◌≢◌, ◌↔◌, refl, sym, ap, ◌∙◌, Bool, true, false, ◌&&◌, List, [], ◌∷◌, ◌++◌, append_assoc,
  append-nil, ltb, length, arith,
}
use scope_network.Text.{Text}
use scope_network.Runner.{Test}
use scope_network.Runner.Run.{
  Line, Log, Setting, run, keep_failed, run_all, summary, run_sequential,
}
use scope_network.Runner.Run.Account.{
  started, reported, names, recorded_names, if_true, Ran, Ran-append, Ran-refl, run-Ran,
}

if_true-and :
    (e b : Bool) (names : List Text) → if_true (e && b) names ≡ if_true b (if_true e names)
if_true-and true b names = refl
if_true-and false true names = refl
if_true-and false false names = refl

if_true-nil : (b : Bool) → if_true b [] ≡ []
if_true-nil true = refl
if_true-nil false = refl

if_true-append :
    (b : Bool) (xs ys : List Text) → if_true b xs ++ if_true b ys ≡ if_true b (xs ++ ys)
if_true-append true xs ys = refl
if_true-append false xs ys = refl

names-keep_failed :
    (s : Setting) (errored : Bool) (t : Test) (failed : List Test)
    → names (keep_failed s errored t failed) ≡ names failed ++ if_true errored (t.name ∷ [])
names-keep_failed s true t failed = go failed
  where
    go : (ts : List Test) → names (ts ++ t ∷ []) ≡ names ts ++ t.name ∷ []
    go [] = refl
    go (u ∷ us) = ap (◌∷◌ u.name) (go us)
names-keep_failed s false t failed = sym (append-nil (names failed))

run_all-Ran :
    (s : Setting) (ts : List Test) (hosts : List Text) (failed : List Test) (log : Log)
    → let (failed', log') = run_all s ts hosts failed log in
      (errors : List Text) × Ran (names ts) errors (if_true s.use_scheduler errors) log log'
      × (names failed' ≡ names failed ++ errors)
unfolding run_all
run_all-Ran s [] hosts failed log =
    ([], rw (if_true-nil s.use_scheduler) (Ran-refl log), sym (append-nil (names failed)))
run_all-Ran s (t ∷ ts) hosts failed log =
    let (errored, log₁) = run s t hosts log in
    let (errors, rest, named) = run_all-Ran s ts hosts (keep_failed s errored t failed) log₁ in
    (
      if_true errored (t.name ∷ []) ++ errors,
      rw (if_true-and, if_true-append) at (Ran-append log log₁ _ (run-Ran s t hosts log) rest),
      named
          ∙ (ap (λ l. l ++ errors) (names-keep_failed s errored t failed)
              ∙ append_assoc (names failed) _ errors),
    )

-- The lines that `sequential` prints are those of the runs and then the summary. The runs start each
-- test once, in the order given; the summary counts and names the tests whose runs have reported an
-- error, in their order; those and no others are recorded with the scheduler, where it is used; and
-- `sequential` returns true exactly where there is such a test.
pub run_sequential_reports :
    (s : Setting) (ts : List Test) (hosts : List Text) (log : Log)
    → let (errored, log') = run_sequential s ts hosts log in
      (lines : List Line) × (failed : List Test) × (log'.console
        ≡ log.console ++ (lines ++ summary ts failed))
      × (started lines ≡ names ts)
      × (names failed ≡ reported lines)
      × (recorded_names log'.recorded
          ≡ recorded_names log.recorded ++ if_true s.use_scheduler (reported lines))
      × ((errored ≡ true) ↔ (reported lines ≢ []))
unfolding run_sequential
run_sequential_reports s ts hosts log =
    let (failed, log₁) = run_all s ts hosts [] log in
    let (errors, ran, named) = run_all-Ran s ts hosts [] log in
    (
      ran.lines,
      failed,
      ap (λ l. l ++ summary ts failed) ran.printed
          ∙ append_assoc log.console ran.lines (summary ts failed),
      ran.starts,
      named ∙ sym ran.errors,
      ran.tells
          ∙ ap (λ e. recorded_names log.recorded ++ if_true s.use_scheduler e) (sym ran.errors),
      some_failed failed (reported ran.lines) (named ∙ sym ran.errors),
    )
  where
    some_failed :
        (fs : List Test) (es : List Text) → names fs ≡ es → (ltb 0 (length fs) ≡ true) ↔ (es ≢ [])
    some_failed [] es e = (λ x. cc, λ ne. absurd (ne (sym e)))
    some_failed (f ∷ fs) es e = (λ x n. cc, λ ne. ground arith)
