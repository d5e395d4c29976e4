-- ===== src/Runner/Progress.antt =====
-- tools/runner/runner.go, `parallel`: when the loop can go on.
use scope_network.Prelude.{
  ℕ, ◌≤◌, Bool, true, false, List, [], ◌∷◌, ◌≡◌, refl, none, some, arith, length, ◌⊎◌, inl, inr,
  All, Option-cases, leb,
}
use scope_network.Prelude.Int.{ℤ, pos, negsuc, leb_ℤ}
use scope_network.Text.{Text}
use scope_network.Runner.{Test, pick}
use scope_network.Runner.Parallel.{
  Running, Loop, begin, next_test, started, received_from, Step, start, receive, Reach, IsDone,
}
use scope_network.Runner.Picking.{total, total-append, total-sort_reverse, found, pick-none}
use scope_network.Runner.Hosts.{next_test-some, test_sum-Reach, hosts_shared_out}
use scope_network.Runner.Finish.{total-length}

abbrev within : ℕ → ℤ → Bool
within limit (pos n) = leb n limit
within limit (negsuc n) = false

-- A test that the hosts suffice for.
abbrev pub suits : ℕ → Test → Bool
suits limit t = within limit t.hosts

abbrev pub one_unless : Bool → ℕ
one_unless true = 0
one_unless false = 1

abbrev excess : ℕ → Test → ℕ
excess limit t = one_unless (suits limit t)

none_exceeds :
    (limit : ℕ) (ts : List Test) → All (λ t. suits limit t ≡ true) ts → total (excess limit) ts ≡ 0
none_exceeds limit [] _ = refl
none_exceeds limit (t ∷ ts) (y, all) = rw (y, none_exceeds limit ts all) refl

within_pos : (limit : ℕ) (z : ℤ) → one_unless (within limit z) ≡ 0 → (n : ℕ) × (z ≡ pos n)
within_pos limit (pos n) e = (n, refl)
within_pos limit (negsuc n) e = absurd (omega (arith, e))

within_fits : (limit : ℕ) (z : ℤ) → one_unless (within limit z) ≡ 0 → leb_ℤ z (pos limit) ≡ true
within_fits limit (pos n) e = ground arith
within_fits limit (negsuc n) e = ground arith

can_start :
    (limit : ℕ) (s : Loop) (t : Test) (rest : List Test)
    → total (excess limit) s.ts ≡ 0
    → next_test s ≡ some (t, rest)
    → (u : Loop) × Step s u
can_start limit s t rest all e = elim (next_test-some s t rest e) [
  | found before after split others y ↦
      let sum = rw split at all in
      let (n, h) =
        within_pos limit t.hosts
          (omega (arith, sum, total-append (excess limit) before (t ∷ after))) in
      (started s t n rest, start t n rest e h refl)
]

none_left :
    (limit : ℕ) (s : Loop)
    → total (excess limit) s.ts ≡ 0
    → length s.hosts ≡ limit
    → 1 ≤ limit
    → next_test s ≡ none
    → s.ts ≡ []
unfolding next_test
none_left limit s all free some_host e = go s.hosts s.ts refl refl e
  where
    go :
        (hosts : List Text) (ts : List Test)
        → s.hosts ≡ hosts
        → s.ts ≡ ts
        → elim hosts [ [] ↦ none | host ∷ more ↦ pick (length s.hosts) s.ts ] ≡ none
        → ts ≡ []
    go hosts [] p q e' = refl
    go [] (t ∷ ts) p q e' = absurd (omega (arith, rw p at free))
    go (host ∷ more) (t ∷ ts) p q e' =
        let (ne, _) = pick-none limit (t ∷ ts) (rw (free, q) at e') in
        let y = within_fits limit t.hosts (omega (arith, rw q at all)) in absurd (cc)

-- If there is a host, and as many as each test needs, then `parallel` never waits in vain: while it
-- is not done, a test can be started, or one runs whose result will be received.
pub never_stuck :
    (ts : List Test) (hosts : List Text) (n : ℕ) (s : Loop)
    → 1 ≤ length hosts
    → All (λ t. suits (length hosts) t ≡ true) ts
    → Reach (begin ts hosts) n s
    → IsDone s ⊎ ((u : Loop) × Step s u)
never_stuck ts hosts n s some_host all steps = go s.running refl (Option-cases (next_test s))
  where
    waiting : total (excess (length hosts)) s.ts ≡ 0
    waiting = omega (
      arith,
      test_sum-Reach (excess (length hosts)) (begin ts hosts) s n steps,
      total-sort_reverse (excess (length hosts)) ts,
      none_exceeds (length hosts) ts all,
    )

    go :
        (running : List Running)
        → s.running ≡ running
        → (next_test s ≡ none) ⊎ ((p : Test × List Test) × (next_test s ≡ some p))
        → IsDone s ⊎ ((u : Loop) × Step s u)
    go running p (inr ((t, rest), e)) = inr (can_start (length hosts) s t rest waiting e)
    go (r ∷ rs) p (inl e) = inr (received_from s [] r rs false, receive [] r rs false e p refl)
    go [] p (inl e) =
        let free : total (λ h. 1) s.hosts ≡ total (λ h. 1) hosts =
          omega (arith, rw p at (hosts_shared_out ts hosts n s (λ h. 1) steps)) in
        inl (
          none_left (length hosts) s waiting
              (omega (arith, free, total-length s.hosts, total-length hosts)) some_host e,
          p,
        )
