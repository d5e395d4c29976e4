-- ===== src/Runner/Hosts.antt =====
-- tools/runner/runner.go, `parallel`: sums that every step of the loop keeps.
use scope_network.Prelude.{
  ℕ, ◌+◌, List, [], ◌∷◌, ◌≡◌, refl, sym, ap, ◌∙◌, none, some, arith, length, take, drop,
  take-append-drop,
}
use scope_network.Text.{Text}
use scope_network.Runner.{Test, pick}
use scope_network.Runner.Parallel.{Loop, begin, next_test, Step, start, receive, Reach, here, next}
use scope_network.Runner.Picking.{total, total-append, Found, found, pick-some}

-- What is started is a test of the list that the free hosts suffice for.
pub next_test-some :
    (s : Loop) (t : Test) (rest : List Test)
    → next_test s ≡ some (t, rest)
    → Found (length s.hosts) s.ts t rest
unfolding next_test
next_test-some s t rest e = go s.hosts refl e
  where
    go :
        (hosts : List Text)
        → s.hosts ≡ hosts
        → elim hosts [ [] ↦ none | host ∷ more ↦ pick (length s.hosts) s.ts ] ≡ some (t, rest)
        → Found (length s.hosts) s.ts t rest
    go [] p e' = cc
    go (host ∷ more) p e' = pick-some (length s.hosts) s.ts t rest e'

-- The hosts of a weight: those that are free, and those of the tests that run.
abbrev pub host_sum : (Text → ℕ) → Loop → ℕ
host_sum g s = total g s.hosts + total (λ r. total g r.hosts) s.running

-- The tests of a weight: those that wait, those that run, and those that have ended.
abbrev pub test_sum : (Test → ℕ) → Loop → ℕ
test_sum f s = total f s.ts + (total (λ r. f r.test) s.running + total f s.received)

total-take-drop :
    (g : Text → ℕ) (n : ℕ) (xs : List Text) → total g (take n xs) + total g (drop n xs) ≡ total g xs
total-take-drop g n xs =
    sym (total-append g (take n xs) (drop n xs)) ∙ ap (total g) (take-append-drop n xs)

host_sum-Step : (g : Text → ℕ) (s u : Loop) → Step s u → host_sum g u ≡ host_sum g s
host_sum-Step g s u (start t n rest e h eq) = rw eq (omega (arith, total-take-drop g n s.hosts))
host_sum-Step g s u (receive before r after errored e split eq) =
    rw (eq, split)
      (omega (
        arith,
        total-append g s.hosts r.hosts,
        total-append (λ q. total g q.hosts) before after,
        total-append (λ q. total g q.hosts) before (r ∷ after),
      ))

test_sum-Step : (f : Test → ℕ) (s u : Loop) → Step s u → test_sum f u ≡ test_sum f s
test_sum-Step f s u (start t n rest e h eq) = elim (next_test-some s t rest e) [
  | found before after split others y ↦
      rw (eq, split, others)
        (omega (arith, total-append f before after, total-append f before (t ∷ after)))
]
test_sum-Step f s u (receive before r after errored e split eq) =
    rw (eq, split)
      (omega (
        arith,
        total-append (λ q. f q.test) before after,
        total-append (λ q. f q.test) before (r ∷ after),
      ))

pub host_sum-Reach : (g : Text → ℕ) (s u : Loop) (n : ℕ) → Reach s n u → host_sum g u ≡ host_sum g s
host_sum-Reach g s _ _ here = refl
host_sum-Reach g s u _ (next {n} {t} steps last) =
    host_sum-Step g t u last ∙ host_sum-Reach g s t n steps

pub test_sum-Reach : (f : Test → ℕ) (s u : Loop) (n : ℕ) → Reach s n u → test_sum f u ≡ test_sum f s
test_sum-Reach f s _ _ here = refl
test_sum-Reach f s u _ (next {n} {t} steps last) =
    test_sum-Step f t u last ∙ test_sum-Reach f s t n steps

-- At every moment of `parallel`, and for every weight of the hosts, the hosts that are free and
-- those of the tests that run have together the weight of all hosts.
pub hosts_shared_out :
    (ts : List Test) (hosts : List Text) (n : ℕ) (s : Loop) (g : Text → ℕ)
    → Reach (begin ts hosts) n s
    → total g s.hosts + total (λ r. total g r.hosts) s.running ≡ total g hosts
hosts_shared_out ts hosts n s g steps = omega (arith, host_sum-Reach g (begin ts hosts) s n steps)
