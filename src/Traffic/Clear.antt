-- ===== src/Traffic/Clear.antt =====
-- tc.go, `ClearTrafficControlSettings`: what it forgets, and what it leaves where it fails.
use scope_network.Prelude.{
  ℕ, ◌+◌, [], ◌∷◌, ◌++◌, ◌≡◌, refl, Option, none, some, arith, if◌then◌else◌,
}
use scope_network.Text.{Text, same}
use scope_network.Dict.{Dict, Distinct}
use scope_network.Dict.Laws.{lookup-erase}
use scope_network.Errors.{Error, ok, err, returns}
use scope_network.Traffic.Status.{TrafficControlStatus}
use scope_network.Traffic.Act.{World}
use scope_network.Traffic.Host.{Host, net_ns_path, replace_command, run_commands, with_net_ns_path}
use scope_network.Traffic.Cache.{cached, erase_map, delete_cache}
use scope_network.Traffic.Controls.{clear_traffic_control_settings}
use scope_network.Traffic.Frame.{with_net_ns_path-cache, get_nsid-cache}
use scope_network.Traffic.Steady.{IsSteady, get_nsid-link_text}

-- The keys of a map that is there are distinct.
abbrev pub IsCache : Option (Dict TrafficControlStatus) → Type 0
IsCache none = Unit
IsCache (some m) = Distinct m

module _ (h : Host) where
  -- A clear that returns an error has left the cache as it was.
  clear-err :
      (pid : ℕ) (w : World) (e : Error)
      → (clear_traffic_control_settings h pid w).0 ≡ returns (err e)
      → (clear_traffic_control_settings h pid w).1.cache ≡ w.cache
  unfolding clear_traffic_control_settings delete_cache
  clear-err pid w e x = grind (arith, with_net_ns_path-cache, get_nsid-cache)

  clear_steady :
      (pid : ℕ) (id : Text) (w : World)
      → IsSteady h pid id
      → clear_traffic_control_settings h pid w ≡ (
        returns (ok tt),
        record w {
          cache = erase_map id w.cache;
          commands = w.commands ++ record { net_ns = net_ns_path pid; argv = replace_command } ∷ [];
          moment = w.moment + 1 + 1 + 1;
        },
      )
  unfolding clear_traffic_control_settings delete_cache with_net_ns_path run_commands
  clear_steady pid id w steady =
      let w₁ : World = record w {
        commands = w.commands ++ record { net_ns = net_ns_path pid; argv = replace_command } ∷ [];
        moment = w.moment + 1 + 1;
      } in
      simp (
        steady.enters,
        steady.runs,
        get_nsid-link_text h (net_ns_path pid) id w₁ (steady.link (w.moment + 1 + 1)),
      )

  cached-erase_map :
      (id j : Text) (cache : Option (Dict TrafficControlStatus))
      → IsCache cache
      → cached j (erase_map id cache) ≡ (if same id j then none else cached j cache)
  cached-erase_map id j none d = ground arith
  cached-erase_map id j (some m) d = lookup-erase id j m d

  -- A clear under which nothing fails resets the queueing discipline by one command, and forgets
  -- the status of its own namespace and of no other, also where the cache is nil.
  pub clear_forgets :
      (pid : ℕ) (id j : Text) (w : World)
      → IsSteady h pid id
      → IsCache w.cache
      → let (r, w') = clear_traffic_control_settings h pid w in
        (r ≡ returns (ok tt))
        × (w'.commands
            ≡ w.commands ++ record { net_ns = net_ns_path pid; argv = replace_command } ∷ [])
        × (cached j w'.cache ≡ (if same id j then none else cached j w.cache))
  clear_forgets pid id j w steady d =
      rw (clear_steady pid id w steady) (refl, refl, cached-erase_map id j w.cache d)
