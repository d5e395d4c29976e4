-- ===== src/Traffic/Together.antt =====
-- tc.go: two controls, one after the other, on one network namespace.
use scope_network.Prelude.{◌≡◌, refl, Option, some, arith}
use scope_network.Text.{Text}
use scope_network.Dict
use scope_network.Dict.{Dict}
use scope_network.Dict.Laws.{lookup-insert_self}
use scope_network.Traffic.Status.{TrafficControlStatus, set_latency, set_packet_loss}
use scope_network.Traffic.Host.{Host}
use scope_network.Traffic.Cache.{init_if_nil, cached}

module _ (id : Text) where
  -- The status of the namespace is cached with this delay and this loss.
  abbrev pub Remembers : Text → Text → Option (Dict TrafficControlStatus) → Type 0
  Remembers latency loss cache =
      (s : TrafficControlStatus) × (cached id cache ≡ some s)
      × (s.latency ≡ latency)
      × (s.packet_loss ≡ loss)

  abbrev pub status : Text → Text → Dict TrafficControlStatus → TrafficControlStatus
  status latency loss m =
      set_packet_loss loss (set_latency latency (init_if_nil (Dict.lookup id m)))

  pub Remembers-status :
      (latency loss : Text) (m : Dict TrafficControlStatus)
      → Remembers latency loss (some (Dict.insert id (status latency loss m) m))
  unfolding set_latency set_packet_loss
  Remembers-status latency loss m =
      (status latency loss m, lookup-insert_self id _ m, ground arith, refl)
