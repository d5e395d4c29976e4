-- ===== src/Runner/Waiting.antt =====
-- tools/runner/runner.go, `parallel`: the test for which the loop waits for ever.
use scope_network.Prelude.{ℕ, ◌+◌, ◌≤◌, true, false, List, ◌∷◌, ◌++◌, ◌≡◌, refl, arith, length}
use scope_network.Prelude.Int.{ℤ, pos, negsuc, leb_ℤ}
use scope_network.Text.{Text}
use scope_network.Runner.{Test}
use scope_network.Runner.Parallel.{Running, Loop, begin, start, receive, Reach, here, next, IsDone}
use scope_network.Runner.Picking.{total, total-append, fits, found}
use scope_network.Runner.Hosts.{next_test-some, hosts_shared_out}
use scope_network.Runner.Finish.{every_test_once, total-length}
use scope_network.Runner.Progress.{one_unless}

-- The weight of the tests that do not fit on all hosts.
abbrev oversize : ℕ → Test → ℕ
oversize limit t = one_unless (fits limit t)

fits-le : (a b : ℕ) (z : ℤ) → a ≤ b → leb_ℤ z (pos a) ≡ true → leb_ℤ z (pos b) ≡ true
fits-le a b (pos n) l e = ground arith
fits-le a b (negsuc n) l e = ground arith

begun_fit :
    (ts : List Test) (hosts : List Text) (n : ℕ) (s : Loop)
    → Reach (begin ts hosts) n s
    → total (λ r. oversize (length hosts) r.test) s.running
        + total (oversize (length hosts)) s.received
      ≡ 0
begun_fit ts hosts _ _ here = omega arith
begun_fit ts hosts _ u (next {n} {t = s} steps (start t k rest e h eq)) =
    elim (next_test-some s t rest e) [
      | found before after split others y ↦
          let free = hosts_shared_out ts hosts n s (λ x. 1) steps in
          let le : length s.hosts ≤ length hosts =
            omega (arith, free, total-length s.hosts, total-length hosts) in
          rw (eq, fits-le (length s.hosts) (length hosts) t.hosts le y)
            (omega (arith, begun_fit ts hosts n s steps))
    ]
begun_fit ts hosts _ u (next {n} {t = s} steps (receive before r after errored e split eq)) =
    let weight = λ (q : Running). oversize (length hosts) q.test in
    rw eq (
      omega (
        arith,
        rw split at (begun_fit ts hosts n s steps),
        total-append weight before after,
        total-append weight before (r ∷ after),
      ))

-- A test that more hosts are needed for than there are keeps `parallel` from ever being done, in
-- every order of events.
pub too_large_never-IsDone :
    (before after : List Test) (t : Test) (hosts : List Text) (n : ℕ) (s : Loop)
    → fits (length hosts) t ≡ false
    → Reach (begin (before ++ t ∷ after) hosts) n s
    → ¬ IsDone s
too_large_never-IsDone before after t hosts n s large steps done =
    let size = oversize (length hosts) in
    let (_, same_sum) = every_test_once (before ++ t ∷ after) hosts n s size steps done in
    let one : size t ≡ 1 = rw large refl in
    omega (
      arith,
      same_sum,
      one,
      total-append size before (t ∷ after),
      begun_fit (before ++ t ∷ after) hosts n s steps,
    )
