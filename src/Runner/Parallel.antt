-- ===== src/Runner/Parallel.antt =====
-- tools/runner/runner.go, `parallel`: its loop as steps. The order in which running tests end, and
-- how, is left open.
use scope_network.Prelude.{
  ℕ, zero, suc, Bool, true, false, List, [], ◌∷◌, ◌++◌, ◌≡◌, Option, none, some, length, take, drop,
  ltb,
}
use scope_network.Prelude.Int.{pos}
use scope_network.Text.{Text}
use scope_network.Runner.{Test, pick, sort_reverse}

-- A test that runs, and its hosts; `outstanding` is the length of their list.
pub record Running : Type 0 where
  pub test : Test
  pub hosts : List Text

-- The variables of `parallel`, and the results that were received.
pub record Loop : Type 0 where
  pub ts : List Test
  pub hosts : List Text
  pub running : List Running
  pub failed : List Test
  pub received : List Test

abbrev pub begin : List Test → List Text → Loop
begin ts hosts = record {
  ts = sort_reverse ts;
  hosts = hosts;
  running = [];
  failed = [];
  received = [];
}

-- What the inner loop finds to start: nothing while no host is free.
unfoldable pub next_test : Loop → Option (Test × List Test)
next_test s = elim s.hosts [ [] ↦ none | host ∷ more ↦ pick (length s.hosts) s.ts ]

-- `hosts[:n]` and `hosts[n:]` go to the test and to the pool.
abbrev pub started : Loop → Test → ℕ → List Test → Loop
started s t n rest = record s {
  ts = rest;
  hosts = drop n s.hosts;
  running = record { test = t; hosts = take n s.hosts } ∷ s.running;
}

abbrev pub with_failure : Bool → Test → List Test → List Test
with_failure true t failed = failed ++ t ∷ []
with_failure false t failed = failed

abbrev pub received_from : Loop → List Running → Running → List Running → Bool → Loop
received_from s before r after errored = record s {
  hosts = s.hosts ++ r.hosts;
  running = before ++ after;
  failed = with_failure errored r.test s.failed;
  received = r.test ∷ s.received;
}

pub data Step (s u : Loop) : Type 0 where
  start :
      (t : Test) (n : ℕ) (rest : List Test)
      → next_test s ≡ some (t, rest)
      → t.hosts ≡ pos n
      → u ≡ started s t n rest
      → Step s u
  receive :
      (before : List Running) (r : Running) (after : List Running) (errored : Bool)
      → next_test s ≡ none
      → s.running ≡ before ++ r ∷ after
      → u ≡ received_from s before r after errored
      → Step s u

pub data Reach (s : Loop) : ℕ → Loop → Type 0 where
  here : Reach s zero s
  next : {n : ℕ} {t u : Loop} → Reach s n t → Step t u → Reach s (suc n) u

-- The condition of the outer loop fails.
abbrev pub IsDone : Loop → Type 0
IsDone s = (s.ts ≡ []) × (s.running ≡ [])

-- The value of `parallel`.
abbrev pub any_failed : Loop → Bool
any_failed s = ltb 0 (length s.failed)
