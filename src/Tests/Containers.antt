-- ===== src/Tests/Containers.antt =====
-- store.go and docker.go at concrete values.
use scope_network.Prelude.{ℕ, [], ◌∷◌, ◌≡◌, ◌≢◌, refl, some, ◌↔◌}
use scope_network.Text.{same}
use scope_network.Store.{stopped, container}
use scope_network.Store.Locking.{
  each, delete, done, System, outside, entered, visiting, leaving, perform, lock, begin, access,
  Reach, here, next, start, update,
}
use scope_network.Store.Locking.Linear.{linearizable, mutual_exclusion}
use scope_network.Store.Locking.Invariant.{Explains}
use scope_network.Docker
use scope_network.Docker.{Daemon, Client, returned, panicked}
use scope_network.Docker.Rounds.{container-start}
use scope_network.Docker.Crash.{start_panics_iff, SomeRoundMeetsGone, start-listeners}
use scope_network.Docker.Invariant.{start-IsTracked, IsTracked, new_store-IsTracked}
use scope_network.Tests.Sample.{
  id1, id2, two_containers, two_containers-IsStore, in_order, in_order-IsIterationOrder, daemon,
  forgetful_daemon, client,
}

-- Goroutine 1 is in the loop of `ForEach`.
abbrev entering : System
entering = record (start two_containers) {
  holder = some 1;
  phase = update (λ t. outside) 1 (entered each);
}

abbrev in_loop : System
in_loop = record entering { phase = update entering.phase 1 (visiting (id1 ∷ id2 ∷ []) []) }

in_loop-Reach : Reach in_order (start two_containers) in_loop
in_loop-Reach = next (next here (lock 1 each refl refl refl)) (begin 1 refl refl)

-- Goroutine 2 has deleted a container, and not left yet.
abbrev deleting : System
deleting = record (start two_containers) {
  holder = some 2;
  phase = update (λ t. outside) 2 (entered (delete id2));
}

abbrev deleted : System
deleted = record deleting {
  store = (perform in_order (delete id2) two_containers).0;
  phase = update deleting.phase 2 leaving;
  history = (2, delete id2, done) ∷ [];
}

deleted-Reach : Reach in_order (start two_containers) deleted
unfolding perform
deleted-Reach =
    next (next here (lock 2 (delete id2) refl refl refl)) (access 2 (delete id2) tt refl refl)

linearizable_example : Explains in_order two_containers deleted.history deleted.store
linearizable_example =
    linearizable in_order in_order-IsIterationOrder two_containers two_containers-IsStore deleted
      deleted-Reach

abbrev visitor : ℕ
visitor = 1

mutual_exclusion_example : visitor ≡ visitor
mutual_exclusion_example =
    mutual_exclusion in_order in_order-IsIterationOrder two_containers two_containers-IsStore
      in_loop visitor visitor in_loop-Reach inside inside
  where
    inside : in_loop.phase visitor ≢ outside
    inside e = cc

container-start_example :
    container (Docker.start (daemon ∷ []) client).1.store id1
    ≡ some (record { state = stopped; pid = 7 })
unfolding Docker.start Docker.session Docker.get_containers same Docker.event_state
container-start_example = container-start (daemon ∷ []) client id1 tt refl

start_panics_iff_example :
    ((Docker.start (forgetful_daemon ∷ []) client).0 ≡ panicked)
    ↔ SomeRoundMeetsGone (forgetful_daemon ∷ [])
start_panics_iff_example = start_panics_iff (forgetful_daemon ∷ []) client

start-listeners_example : (Docker.start (daemon ∷ forgetful_daemon ∷ []) client).1.listeners ≡ 0
start-listeners_example = start-listeners (daemon ∷ forgetful_daemon ∷ []) client (refl, (refl, tt))

start-IsTracked_example : IsTracked (Docker.start (daemon ∷ []) client).1.store
start-IsTracked_example = start-IsTracked (daemon ∷ []) client new_store-IsTracked
