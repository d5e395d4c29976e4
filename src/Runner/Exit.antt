-- ===== src/Runner/Exit.antt =====
-- tools/runner/runner.go, `main` with `sequential`: the exit status.
use scope_network.Prelude.{
  ◌≡◌, ◌≢◌, ◌↔◌, refl, List, [], ◌∷◌, arith, Bool, true, false, All, ltb, length,
}
use scope_network.Text.{Text}
use scope_network.Text.Fields.{fields}
use scope_network.Errors.{Result, ok, err}
use scope_network.Runner.{Test, failed_tests, sequential, exit_status, run_tests, get_tests, main}

none_failed :
    (errored : Test → List Text → Bool) (hosts : List Text) (ts : List Test)
    → (ltb 0 (length (failed_tests errored hosts ts)) ≡ false)
      ↔ All (λ t. errored t hosts ≡ false) ts
unfolding failed_tests
none_failed errored hosts [] = (λ e. tt, λ h. refl)
none_failed errored hosts (t ∷ ts) = ground (arith, none_failed errored hosts ts)

-- The runner without `-parallel` exits with 0 exactly where the tests could be had, HOSTS names a
-- host, and no test ends with an error on all the hosts.
main-sequential_iff :
    (use_scheduler : Bool) (schedule : List Text → Result (List Text))
    (errored : Test → List Text → Bool) (names : List Text) (hosts : Text)
    → (main use_scheduler schedule (sequential errored) names hosts ≡ 0) ↔ (
        (ts : List Test) × (get_tests use_scheduler schedule names ≡ ok ts)
        × (fields hosts ≢ [])
        × All (λ t. errored t (fields hosts) ≡ false) ts)
unfolding main
main-sequential_iff use_scheduler schedule errored names hosts =
    by_cases (get_tests use_scheduler schedule names) (fields hosts)
  where
    exits_0 : (b : Bool) → (exit_status b ≡ 0) ↔ (b ≡ false)
    exits_0 true = ground arith
    exits_0 false = (λ e. refl, λ e. refl)

    by_cases :
        (r : Result (List Test)) (hs : List Text)
        → (run_tests (sequential errored) hs r ≡ 0)
          ↔ ((ts : List Test) × (r ≡ ok ts) × (hs ≢ []) × All (λ t. errored t hs ≡ false) ts)
    by_cases (err x) hs = (λ e. absurd (omega (arith, e)), λ p. let (ts, e, ne, all) = p in cc)
    by_cases (ok ts) [] =
        (λ e. absurd (omega (arith, e)), λ p. let (us, e, ne, all) = p in absurd (ne refl))
    by_cases (ok ts) (host ∷ more) = (
      λ e. (
        ts,
        refl,
        (λ f. cc),
        (none_failed errored (host ∷ more) ts).0
            (unfold sequential in (exits_0 (sequential errored ts (host ∷ more))).0 e),
      ),
      λ p.
          let (us, same_tests, some_host, all) = p in
          let eq : ts ≡ us = cc (same_tests) in
          unfold sequential in
          (exits_0 (ltb 0 (length (failed_tests errored (host ∷ more) ts)))).1
            ((none_failed errored (host ∷ more) ts).1 (rw eq all)),
    )
