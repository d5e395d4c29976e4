-- ===== src/Runner.antt =====
-- tools/runner/runner.go: the integration test runner. The tests and the hosts that they need, the
-- order in which they are tried, and the pick of the next test.
pub mod Parallel
pub mod Picking
pub mod Hosts
pub mod Finish
pub mod Progress
pub mod Waiting
pub mod Exit
pub mod Names
pub mod Run
pub mod Schedule
pub mod Console
pub mod Agreement
use scope_network.Prelude.{
  ℕ, Bool, true, false, ◌&&◌, ◌||◌, not, List, [], ◌∷◌, ◌++◌, Option, none, some, ltb, ◌==◌,
  if◌then◌else◌, length,
}
use scope_network.Prelude.Int.{ℤ, pos, negsuc, ltb_ℤ, leb_ℤ}
use scope_network.Text.{Text, codes, same}
use scope_network.Text.Order.{text_less}
use scope_network.Text.Affix.{has_prefix, trim_suffix}
use scope_network.Text.Split.{split, join}
use scope_network.Text.Fields.{fields}
use scope_network.Text.Decimal.{parse_int}
use scope_network.Errors.{Error, Result, ok, err}

pub record Test : Type 0 where
  pub name : Text
  pub hosts : ℤ

unfoldable pub less : Test → Test → Bool
less a b =
    if ltb_ℤ a.hosts b.hosts || ltb_ℤ b.hosts a.hosts
    then ltb_ℤ a.hosts b.hosts
    else text_less a.name b.name

-- `sort.Sort(sort.Reverse(ts))`. Tests of which neither is less are equal, so that the result does
-- not depend on the algorithm; here each test is put before the first that is less.
unfoldable pub insert_test : Test → List Test → List Test
insert_test t [] = t ∷ []
insert_test t (u ∷ us) = if less u t then t ∷ u ∷ us else u ∷ insert_test t us

unfoldable pub sort_reverse : List Test → List Test
unfolding insert_test
sort_reverse [] = []
sort_reverse (t ∷ ts) = insert_test t (sort_reverse ts)

abbrev pub keep_first : Test → Option (Test × List Test) → Option (Test × List Test)
keep_first t none = none
keep_first t (some (found, rest)) = some (found, t ∷ rest)

-- The first test that fits, and the others in their order.
unfoldable pub pick : ℕ → List Test → Option (Test × List Test)
pick available [] = none
pick available (t ∷ ts) =
    if leb_ℤ t.hosts (pos available) then some (t, ts) else keep_first t (pick available ts)

abbrev last_part : Text → List Text → Text
last_part p [] = p
last_part p (q ∷ ps) = last_part q ps

abbrev pub last_of : List Text → Text
last_of [] = []
last_of (p ∷ ps) = last_part p ps

abbrev pub one_if_error : ℤ × Bool → ℤ
one_if_error (n, true) = pos 1
one_if_error (n, false) = n

-- The number in a test's name, 1 where there is none.
unfoldable pub num_hosts : Text → ℤ
unfolding trim_suffix split parse_int
num_hosts name =
    one_if_error (parse_int (last_of (split (trim_suffix name (codes "_test.sh")) b'_')))

unfoldable pub make_tests : List Text → List Test
unfolding num_hosts
make_tests [] = []
make_tests (name ∷ names) = record { name = name; hosts = num_hosts name } ∷ make_tests names

-- `getTests`; `schedule` is the answer of the scheduler to the names, where it is used.
unfoldable pub get_tests : Bool → (List Text → Result (List Text)) → List Text → Result (List Test)
unfolding make_tests
get_tests false schedule names = ok (make_tests names)
get_tests true schedule names = elim (schedule names) [
  | err e ↦ err e
  | ok scheduled ↦ ok (make_tests scheduled)
]

-- The environment of a test: the first variable that begins with HOSTS is replaced.
unfoldable pub replace_hosts : List Text → List Text → List Text
unfolding has_prefix join
replace_hosts hosts [] = []
replace_hosts hosts (env ∷ envs) =
    if has_prefix env (codes "HOSTS")
    then (codes "HOSTS=" ++ join hosts (codes " ")) ∷ envs
    else env ∷ replace_hosts hosts envs

-- `sequential`: `errored` tells how the run of a test on the hosts ends.
unfoldable pub failed_tests : (Test → List Text → Bool) → List Text → List Test → List Test
failed_tests errored hosts [] = []
failed_tests errored hosts (t ∷ ts) =
    if errored t hosts then t ∷ failed_tests errored hosts ts else failed_tests errored hosts ts

unfoldable pub sequential : (Test → List Text → Bool) → List Test → List Text → Bool
unfolding failed_tests
sequential errored ts hosts = ltb 0 (length (failed_tests errored hosts ts))

-- The value with which `main` exits. `run` is `parallel` or `sequential`: whether a test failed.
abbrev pub exit_status : Bool → ℕ
exit_status true = 1
exit_status false = 0

abbrev pub run_tests : (List Test → List Text → Bool) → List Text → Result (List Test) → ℕ
run_tests run hosts (err e) = 1
run_tests run [] (ok ts) = 1
run_tests run (host ∷ more) (ok ts) = exit_status (run ts (host ∷ more))

unfoldable pub main :
    Bool → (List Text → Result (List Text)) → (List Test → List Text → Bool) → List Text → Text → ℕ
unfolding get_tests fields
main use_scheduler schedule run names hosts =
    run_tests run (fields hosts) (get_tests use_scheduler schedule names)
