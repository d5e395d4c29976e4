-- ===== src/Runner/Agreement.antt =====
-- tools/runner/runner.go: `parallel` and `sequential` on tests that end the same on all hosts.
use scope_network.Prelude.{
  ℕ, ◌+◌, Bool, true, false, List, [], ◌∷◌, ◌≡◌, refl, sym, ap, ◌∙◌, arith, length, ltb,
  if◌then◌else◌,
}
use scope_network.Text.{Text}
use scope_network.Runner.{Test, failed_tests, sequential}
use scope_network.Runner.Parallel.{
  Loop, begin, with_failure, Step, start, receive, Reach, here, next, IsDone, any_failed,
}
use scope_network.Runner.Picking.{total, total-append}
use scope_network.Runner.Finish.{every_test_once, total-length}

module _ (fails : Test → Bool) where
  abbrev EndsAs : {s u : Loop} → Step s u → Type 0
  EndsAs (start t n rest e h eq) = Unit
  EndsAs (receive before r after errored e split eq) = errored ≡ fails r.test

  -- In these steps each test ends with an error or not as the function says.
  abbrev pub AllEndAs : {s u : Loop} {n : ℕ} → Reach s n u → Type 0
  AllEndAs here = Unit
  AllEndAs (next steps last) = AllEndAs steps × EndsAs last

  abbrev failing_weight : (Test → ℕ) → Test → ℕ
  failing_weight g t = if fails t then g t else 0

  with_failure_weight :
      (g : Test → ℕ) (b : Bool) (t : Test) (failed : List Test)
      → b ≡ fails t
      → total g (with_failure b t failed) ≡ failing_weight g t + total g failed
  with_failure_weight g true t failed e = rw (← e) (omega (arith, total-append g failed (t ∷ [])))
  with_failure_weight g false t failed e = rw (← e) (omega arith)

  failed_sum-Step :
      (g : Test → ℕ) (s u : Loop) (step : Step s u)
      → EndsAs step
      → total g s.failed ≡ total (failing_weight g) s.received
      → total g u.failed ≡ total (failing_weight g) u.received
  failed_sum-Step g s u (start t n rest e h eq) told sum = rw eq sum
  failed_sum-Step g s u (receive before r after errored e split eq) told sum =
      rw eq (omega (arith, sum, with_failure_weight g errored r.test s.failed told))

  failed_sum-Reach :
      (g : Test → ℕ) (ts : List Test) (hosts : List Text) (n : ℕ) (s : Loop)
      → (steps : Reach (begin ts hosts) n s) → AllEndAs steps
      → total g s.failed ≡ total (failing_weight g) s.received
  failed_sum-Reach g ts hosts _ _ here told = refl
  failed_sum-Reach g ts hosts _ s (next {n} {t} steps last) (told, last_told) =
      failed_sum-Step g t s last last_told (failed_sum-Reach g ts hosts n t steps told)

  failed_tests_weight :
      (g : Test → ℕ) (hosts : List Text) (ts : List Test)
      → total g (failed_tests (λ t hs. fails t) hosts ts) ≡ total (failing_weight g) ts
  unfolding failed_tests
  failed_tests_weight g hosts [] = refl
  failed_tests_weight g hosts (t ∷ ts) = ground (arith, failed_tests_weight g hosts ts)

-- When `parallel` is done, in every order of events, then on tests that each end the same on all
-- hosts it counts the same failures as `sequential`, each as often, and returns the same.
pub parallel_as_sequential :
    (fails : Test → Bool) (ts : List Test) (hosts : List Text) (n : ℕ) (s : Loop) (g : Test → ℕ)
    (steps : Reach (begin ts hosts) n s)
    → AllEndAs fails steps
    → IsDone s
    → (total g s.failed ≡ total g (failed_tests (λ t hs. fails t) hosts ts))
      × (any_failed s ≡ sequential (λ t hs. fails t) ts hosts)
unfolding sequential
parallel_as_sequential fails ts hosts n s g steps told ended = (sums g, ap (ltb 0) lengths)
  where
    sums : (g : Test → ℕ) → total g s.failed ≡ total g (failed_tests (λ t hs. fails t) hosts ts)
    sums g =
        failed_sum-Reach fails g ts hosts n s steps told
        ∙ ((every_test_once ts hosts n s (failing_weight fails g) steps ended).1
            ∙ sym (failed_tests_weight fails g hosts ts))

    lengths : length s.failed ≡ length (failed_tests (λ t hs. fails t) hosts ts)
    lengths =
        sym (total-length s.failed)
        ∙ (sums (λ t. 1) ∙ total-length (failed_tests (λ t hs. fails t) hosts ts))
