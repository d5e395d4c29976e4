-- ===== src/Store/Locking/Linear.antt =====
-- What the mutex gives the plugin's goroutines: exclusion, a sequential history, and its release.
use scope_network.Prelude.{ℕ, ◌≡◌, ◌≢◌, none}
use scope_network.Text.{Text}
use scope_network.Dict.{Dict, IsIterationOrder}
use scope_network.Store.{Container, Store}
use scope_network.Store.Laws.{IsStore}
use scope_network.Store.Locking.{outside, System, Reach, start}
use scope_network.Store.Locking.Invariant.{Explains, Inv, Reach-Inv}

module _ (shuffle : Dict Container → Dict Container) (o : IsIterationOrder shuffle)
    (initial : Store) (d : IsStore initial) where
  -- Two goroutines that are both between `Lock` and `Unlock`, in any reachable state, are one.
  pub mutual_exclusion :
      (s : System) (i j : ℕ)
      → Reach shuffle (start initial) s
      → s.phase i ≢ outside
      → s.phase j ≢ outside
      → i ≡ j
  mutual_exclusion s i j r hi hj =
      let v : Inv shuffle initial s = Reach-Inv shuffle o initial d r in
      cc (v.inside i hi, v.inside j hj)

  -- In any reachable state, the finished calls, run one after the other from the first store in
  -- the order of the history, return the replies that the goroutines saw and end in the present
  -- store. A finished `ForEach` so has seen the whole map of one moment.
  pub linearizable :
      (s : System) → Reach shuffle (start initial) s → Explains shuffle initial s.history s.store
  linearizable s r = (Reach-Inv shuffle o initial d r).explained

module _ (shuffle : Dict Container → Dict Container) where
  abbrev CanRelease : System → Type 0
  CanRelease s = (u : System) × Reach shuffle s u × (u.holder ≡ none)
