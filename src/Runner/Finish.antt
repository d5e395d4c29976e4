-- ===== src/Runner/Finish.antt =====
-- tools/runner/runner.go, `parallel`: that the loop ends, and when it cannot.
use scope_network.Prelude.{
  ℕ, ◌≤◌, ◌+◌, ◌*◌, List, [], ◌∷◌, ◌≡◌, refl, arith, length, length-append, suc,
}
use scope_network.Text.{Text}
use scope_network.Runner.{Test, sort_reverse}
use scope_network.Runner.Parallel.{Loop, begin, Step, start, receive, Reach, here, next, IsDone}
use scope_network.Runner.Picking.{total, total-sort_reverse, found}
use scope_network.Runner.Hosts.{next_test-some, test_sum-Reach}

-- Two steps for each test that waits, and one for each that runs.
abbrev work : Loop → ℕ
work s = 2 * length s.ts + length s.running

work-Step : (s u : Loop) → Step s u → suc (work u) ≡ work s
work-Step s u (start t n rest e h eq) = elim (next_test-some s t rest e) [
  | found before after split others y ↦
      rw (eq, split, others)
        (omega (arith, length-append before after, length-append before (t ∷ after)))
]
work-Step s u (receive before r after errored e split eq) =
    rw (eq, split) (omega (arith, length-append before after, length-append before (r ∷ after)))

work-Reach : (s u : Loop) (n : ℕ) → Reach s n u → n + work u ≡ work s
work-Reach s _ _ here = omega arith
work-Reach s u _ (next {n} {t} steps last) =
    omega (arith, work-Step t u last, work-Reach s t n steps)

pub total-length : {A : Type 0} (xs : List A) → total (λ x. 1) xs ≡ length xs
total-length [] = refl
total-length (x ∷ xs) = omega (arith, total-length xs)

length-sort_reverse : (ts : List Test) → length (sort_reverse ts) ≡ length ts
length-sort_reverse ts =
    omega (arith, total-length ts, total-length (sort_reverse ts), total-sort_reverse (λ t. 1) ts)

-- Every step of `parallel` brings its end one step nearer: the steps taken, twice the tests that
-- wait and the tests that run are together twice the given tests. So no run has more steps.
pub steps_left :
    (ts : List Test) (hosts : List Text) (n : ℕ) (s : Loop)
    → Reach (begin ts hosts) n s
    → (n + (2 * length s.ts + length s.running) ≡ 2 * length ts) × (n ≤ 2 * length ts)
steps_left ts hosts n s steps =
    let measure = work-Reach (begin ts hosts) s n steps in
    (omega (arith, measure, length-sort_reverse ts), omega (arith, measure, length-sort_reverse ts))

-- Whenever `parallel` is done, in every order of events, it has taken exactly two steps for each
-- test, and for every weight of the tests those whose results were received weigh together what the
-- given tests weigh: each was run as often as it was given.
pub every_test_once :
    (ts : List Test) (hosts : List Text) (n : ℕ) (s : Loop) (f : Test → ℕ)
    → Reach (begin ts hosts) n s
    → IsDone s
    → (n ≡ 2 * length ts) × (total f s.received ≡ total f ts)
every_test_once ts hosts n s f steps (no_test, none_runs) =
    let measure = work-Reach (begin ts hosts) s n steps in
    let sums = test_sum-Reach f (begin ts hosts) s n steps in
    (
      omega (arith, length-sort_reverse ts, rw (no_test, none_runs) at measure),
      omega (arith, total-sort_reverse f ts, rw (no_test, none_runs) at sums),
    )
