-- ===== src/Tests/Runs.antt =====
-- tools/runner/runner.go at concrete values.
use scope_network.Runner.{less}
use scope_network.Prelude.{
  if◌then◌else◌, none, ◌≤◌, ◌+◌, ◌*◌, false, true, [], ◌∷◌, ◌≡◌, ◌⊎◌, refl, arith, length,
}
use scope_network.Errors.{ok}
use scope_network.Runner.{sequential, failed_tests}
use scope_network.Runner.Parallel.{any_failed}
use scope_network.Runner.Agreement.{parallel_as_sequential}
use scope_network.Runner.Run
use scope_network.Runner.Run.{timer, Setting, Log}
use scope_network.Runner.Schedule.{Scheduler}
use scope_network.Prelude.Int.{pos}
use scope_network.Text.{Text, codes, same}
use scope_network.Runner.{Test, pick, sort_reverse}
use scope_network.Runner.Parallel.{
  Loop, begin, next_test, started, received_from, Step, start, receive, Reach, here, next, IsDone,
}
use scope_network.Runner.Picking.{total}
use scope_network.Runner.Hosts.{hosts_shared_out}
use scope_network.Runner.Finish.{every_test_once, steps_left}
use scope_network.Runner.Progress.{never_stuck}
use scope_network.Runner.Waiting.{too_large_never-IsDone}

abbrev small : Test
small = record { name = codes "ping_test.sh"; hosts = pos 1 }

abbrev large : Test
large = record { name = codes "mesh_3_test.sh"; hosts = pos 3 }

abbrev host1 : Text
host1 = codes "h1"

-- One test on one of two hosts: it is started, and then its result is received.
abbrev begun : Loop
begun = begin (small ∷ []) (host1 ∷ codes "h2" ∷ [])

abbrev with_one : Loop
with_one = started begun small 1 []

abbrev ended : Loop
ended = received_from with_one [] (record { test = small; hosts = host1 ∷ [] }) [] true

with_one-Reach : Reach begun 1 with_one
unfolding next_test pick sort_reverse
with_one-Reach = next here (start small 1 [] refl refl refl)

ended-Reach : Reach begun 2 ended
unfolding next_test pick
ended-Reach =
    next with_one-Reach
      (receive [] (record { test = small; hosts = host1 ∷ [] }) [] true refl refl refl)

hosts_shared_out_example :
    total length with_one.hosts + total (λ r. total length r.hosts) with_one.running ≡ 4
hosts_shared_out_example =
    hosts_shared_out (small ∷ []) (host1 ∷ codes "h2" ∷ []) 1 with_one length with_one-Reach

every_test_once_example : (2 ≡ 2 * length (small ∷ [])) × (total (λ t. 5) ended.received ≡ 5)
every_test_once_example =
    every_test_once (small ∷ []) (host1 ∷ codes "h2" ∷ []) 2 ended (λ t. 5) ended-Reach (refl, refl)

steps_left_example : (1 + (2 * 0 + 1) ≡ 2 * length (small ∷ [])) × (1 ≤ 2 * length (small ∷ []))
steps_left_example = steps_left (small ∷ []) (host1 ∷ codes "h2" ∷ []) 1 with_one with_one-Reach

never_stuck_example : IsDone with_one ⊎ ((u : Loop) × Step with_one u)
never_stuck_example =
    never_stuck (small ∷ []) (host1 ∷ codes "h2" ∷ []) 1 with_one (omega arith) (refl, tt)
      with_one-Reach

-- The larger test is put first, and waits for a third host while the small one runs.
abbrev waiting : Loop
waiting = started (begin (small ∷ large ∷ []) (host1 ∷ codes "h2" ∷ [])) small 1 (large ∷ [])

too_large_never-IsDone_example : ¬ IsDone waiting
unfolding next_test pick sort_reverse less
too_large_never-IsDone_example =
    too_large_never-IsDone (small ∷ []) [] large (host1 ∷ codes "h2" ∷ []) 1 waiting refl
      (next here (start small 1 (large ∷ []) refl refl refl))

abbrev mesh_name : Text
mesh_name = codes "mesh_3_test.sh"

-- The larger test fails; the scheduler hands both out in the other order, and is told of the failure.
abbrev setting : Setting
setting = record {
  verbose = false;
  use_scheduler = true;
  scheduler_host = codes "scheduler";
  environ = codes "HOSTS=" ∷ [];
  attempt = λ log name environ. record {
    wait = if same name mesh_name then timer else Run.ended none;
    output = [];
    duration = 5;
  };
  post = λ log r. none;
}

abbrev getenv : Text → Text
getenv key = if same key (codes "HOSTS") then codes "h1 h2 h3" else []

abbrev scheduler : Scheduler
scheduler = record {
  encode_tests = λ names. ok [];
  post = λ url body. ok body;
  decode_tests = λ body. ok (mesh_name ∷ codes "ping_test.sh" ∷ []);
}

abbrev empty_log : Log
empty_log = record { console = []; recorded = [] }

parallel_as_sequential_example :
    (total (λ t. 5) ended.failed ≡ 5)
    × (any_failed ended ≡ sequential (λ t hs. true) (small ∷ []) (host1 ∷ codes "h2" ∷ []))
unfolding with_one-Reach ended-Reach failed_tests
parallel_as_sequential_example =
    parallel_as_sequential (λ t. true) (small ∷ []) (host1 ∷ codes "h2" ∷ []) 2 ended (λ t. 5)
      ended-Reach (((tt, tt), refl)) (refl, refl)
