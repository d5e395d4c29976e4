-- ===== src/Traffic/Frame.antt =====
-- tc.go: what the questions and commands leave alone, and the two ends of a write to the cache.
use scope_network.Prelude.{ℕ, List, [], ◌∷◌, ◌≡◌, refl, none, some, arith}
use scope_network.Text.{Text}
use scope_network.Dict
use scope_network.Dict.{Dict}
use scope_network.Errors.{returns, panics}
use scope_network.Traffic.Status.{TrafficControlStatus, set_latency, set_packet_loss}
use scope_network.Traffic.Act.{World}
use scope_network.Traffic.Host.{
  Host, get_nsid, run_commands, with_net_ns_path, query_influx_db, apply_traffic_control_rules,
}
use scope_network.Traffic.Cache.{init_if_nil, update_cache}

-- The cached status after a control.
abbrev pub with_status : Text → Text → Text → Dict TrafficControlStatus → Dict TrafficControlStatus
with_status id latency loss m =
    Dict.insert id (set_packet_loss loss (set_latency latency (init_if_nil (Dict.lookup id m)))) m

module _ (id latency loss : Text) where
  pub update_cache_nil : (w : World) → w.cache ≡ none → (update_cache id latency loss w).0 ≡ panics
  unfolding update_cache
  update_cache_nil w e = ground arith

  pub update_cache_keeps :
      (w : World) → w.cache ≡ none → (update_cache id latency loss w).1.cache ≡ none
  unfolding update_cache
  update_cache_keeps w e = ground arith

  pub update_cache-some :
      (m : Dict TrafficControlStatus) (w : World)
      → w.cache ≡ some m
      → update_cache id latency loss w
        ≡ (returns tt, record w { cache = some (with_status id latency loss m) })
  unfolding update_cache
  update_cache-some m w e = ground arith

module _ (h : Host) where
  pub get_nsid-cache : (path : Text) (w : World) → (get_nsid h path w).1.cache ≡ w.cache
  unfolding get_nsid
  get_nsid-cache path w = ground arith

  pub run_commands-cache :
      (ns : Text) (cmds : List (List Text)) (w : World)
      → (run_commands h ns cmds w).1.cache ≡ w.cache
  unfolding run_commands
  run_commands-cache ns [] w = refl
  run_commands-cache ns (c ∷ cmds) w = grind (arith, run_commands-cache ns cmds)

  pub with_net_ns_path-cache :
      (ns : Text) (cmds : List (List Text)) (w : World)
      → (with_net_ns_path h ns cmds w).1.cache ≡ w.cache
  unfolding with_net_ns_path
  with_net_ns_path-cache ns cmds w = grind (arith, run_commands-cache ns cmds)

  pub apply-cache :
      (pid : ℕ) (rules : List Text) (w : World)
      → (apply_traffic_control_rules h pid rules w).1.cache ≡ w.cache
  unfolding apply_traffic_control_rules
  apply-cache pid rules w = grind (arith, with_net_ns_path-cache, get_nsid-cache)

  pub query-cache : (d q : Text) (w : World) → (query_influx_db h d q w).1.cache ≡ w.cache
  unfolding query_influx_db
  query-cache d q w = ground arith
