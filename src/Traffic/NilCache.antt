-- ===== src/Traffic/NilCache.antt =====
-- tc.go under the cache as `main` leaves it: `main` makes only `neworkControlStatusCache`, so that
-- `trafficControlStatusCache` is nil.
use scope_network.Prelude.{ℕ, List, [], ◌∷◌, ◌≡◌, ◌≢◌, Option, none, arith}
use scope_network.Text.{Text}
use scope_network.Errors.{ok, Outcome, returns, panics, exits}
use scope_network.Traffic.Status.{TrafficControlStatus}
use scope_network.Traffic.Act.{World}
use scope_network.Traffic.Host.{
  Host, inner, random, get_nsid, run_commands, with_net_ns_path, apply_traffic_control_rules,
}
use scope_network.Traffic.Frame.{
  get_nsid-cache, with_net_ns_path-cache, apply-cache, query-cache, update_cache_nil,
  update_cache_keeps,
}
use scope_network.Traffic.Cache.{
  delete_cache, write_cache, fetch_status, get_status, get_packet_loss, found_or_fetch, cached,
}
use scope_network.Traffic.Controls.{
  apply_latency, apply_packet_loss, clear_traffic_control_settings,
}

module _ (h : Host) where
  fetch_status-nil :
      (id : Text) (w : World) (s : Option TrafficControlStatus)
      → w.cache ≡ none
      → (fetch_status h id w).0 ≢ returns (ok s)
  unfolding fetch_status write_cache
  fetch_status-nil id w s e = grind (arith, query-cache)

  found_or_fetch-nil :
      (id : Text) (w : World) (s : Option TrafficControlStatus)
      → w.cache ≡ none
      → (found_or_fetch h id (cached id w.cache) w).0 ≢ returns (ok s)
  found_or_fetch-nil id w s e = ground (arith, fetch_status-nil id w s)

  get_status-nil :
      (pid : ℕ) (w : World) (s : Option TrafficControlStatus)
      → w.cache ≡ none
      → (get_status h pid w).0 ≢ returns (ok s)
  unfolding get_status
  get_status-nil pid w s e = grind (arith, found_or_fetch-nil, get_nsid-cache)

  get_packet_loss-nil :
      (pid : ℕ) (w : World) (loss : Text)
      → w.cache ≡ none
      → (get_packet_loss h pid w).0 ≢ returns (ok loss)
  unfolding get_packet_loss
  get_packet_loss-nil pid w loss e = grind (arith, get_status-nil)

  -- With the nil cache `ApplyLatency` never succeeds for a latency that is not empty: it returns
  -- an error, panics or exits.
  pub apply_latency-nil :
      (pid c : ℕ) (latency : Text) (w : World)
      → w.cache ≡ none
      → (apply_latency h pid (c ∷ latency) w).0 ≢ returns (ok tt)
  unfolding apply_latency
  apply_latency-nil pid c latency w e = grind (arith, get_packet_loss-nil)

  abbrev Returns {ℓ} : {A : Type ℓ} → Outcome A → Type 0
  Returns (returns a) = Unit
  Returns panics = ⊥
  Returns exits = ⊥

  run_commands-Returns :
      (ns : Text) (cmds : List (List Text)) (w : World) → Returns (run_commands h ns cmds w).0
  unfolding run_commands
  run_commands-Returns ns [] w = tt
  run_commands-Returns ns (c ∷ cmds) w = grind (arith, run_commands-Returns ns cmds)

  apply-ne-exits :
      (pid : ℕ) (rules : List Text) (w : World)
      → (apply_traffic_control_rules h pid rules w).0 ≢ exits
  unfolding apply_traffic_control_rules with_net_ns_path get_nsid inner
  apply-ne-exits pid rules w = grind (arith, run_commands-Returns)

  -- With the nil cache `ApplyPacketLoss` panics for every loss that is not empty, whatever the
  -- commands that it has run by then have changed.
  pub apply_packet_loss-nil :
      (pid c : ℕ) (loss : Text) (w : World)
      → w.cache ≡ none
      → (apply_packet_loss h pid (c ∷ loss) w).0 ≡ panics
  unfolding apply_packet_loss random
  apply_packet_loss-nil pid c loss w e =
      grind (arith, update_cache_nil, apply-cache, apply-ne-exits)

  fetch_status-keeps :
      (id : Text) (w : World) → w.cache ≡ none → (fetch_status h id w).1.cache ≡ none
  unfolding fetch_status write_cache
  fetch_status-keeps id w e = grind (arith, query-cache)

  found_or_fetch-keeps :
      (id : Text) (w : World)
      → w.cache ≡ none
      → (found_or_fetch h id (cached id w.cache) w).1.cache ≡ none
  found_or_fetch-keeps id w e = ground (arith, fetch_status-keeps id w)

  get_status-keeps : (pid : ℕ) (w : World) → w.cache ≡ none → (get_status h pid w).1.cache ≡ none
  unfolding get_status
  get_status-keeps pid w e = grind (arith, found_or_fetch-keeps, get_nsid-cache)

  -- No control makes the cache.
  get_packet_loss-keeps :
      (pid : ℕ) (w : World) → w.cache ≡ none → (get_packet_loss h pid w).1.cache ≡ none
  unfolding get_packet_loss
  get_packet_loss-keeps pid w e = grind (arith, get_status-keeps)

  pub apply_latency-keeps :
      (pid : ℕ) (latency : Text) (w : World)
      → w.cache ≡ none
      → (apply_latency h pid latency w).1.cache ≡ none
  unfolding apply_latency
  apply_latency-keeps pid [] w e = e
  apply_latency-keeps pid (c ∷ latency) w e =
      grind (arith, get_packet_loss-keeps, apply-cache, update_cache_keeps)

  pub apply_packet_loss-keeps :
      (pid : ℕ) (loss : Text) (w : World)
      → w.cache ≡ none
      → (apply_packet_loss h pid loss w).1.cache ≡ none
  unfolding apply_packet_loss random
  apply_packet_loss-keeps pid [] w e = e
  apply_packet_loss-keeps pid (c ∷ loss) w e = grind (arith, apply-cache, update_cache_keeps)

  pub clear-keeps :
      (pid : ℕ) (w : World)
      → w.cache ≡ none
      → (clear_traffic_control_settings h pid w).1.cache ≡ none
  unfolding clear_traffic_control_settings delete_cache
  clear-keeps pid w e = grind (arith, with_net_ns_path-cache, get_nsid-cache)
