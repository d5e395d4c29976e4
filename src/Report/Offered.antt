-- ===== src/Report/Offered.antt =====
-- report.go: the controls of the report, those of its nodes, and those that `GetHandler` knows are
-- the same; and whose handler `GetHandler` returns.
use scope_network.Prelude.{
  ℕ, Bool, List, [], ◌∷◌, ◌≡◌, ◌≢◌, ◌↔◌, refl, sym, ap, ◌∙◌, Option-cases, inl, inr, Option, none,
  some, arith,
}
use scope_network.Text.{Text}
use scope_network.Text.Affix.{has_suffix-append, trim_suffix-append, append-trim_suffix}
use scope_network.Dict
use scope_network.Dict.{Dict}
use scope_network.Dict.Laws.{lookup-insert}
use scope_network.Errors.{Result, ok, err}
use scope_network.Store.{Container, Store, container}
use scope_network.Traffic.Host.{Host}
use scope_network.Report.Controls.{
  Control, ExtControl, get_controls, traffic_controls_from, get_traffic_controls,
}
use scope_network.Report.Nodes.{
  ControlEntry, node_suffix, container_id_to_node_id, node_id_to_container_id, node_controls_from,
  get_traffic_node_controls,
}
use scope_network.Report.Handlers.{
  Handler, find_handler, bind_pid, handler_of, handler_at, get_handler,
}

-- The container id comes back from its node id.
pub node_id_to_container_id-container_id_to_node_id :
    (id : Text) → node_id_to_container_id (container_id_to_node_id id) ≡ ok id
unfolding node_id_to_container_id container_id_to_node_id
node_id_to_container_id-container_id_to_node_id id =
    rw (has_suffix-append id node_suffix, trim_suffix-append id node_suffix)

-- What is accepted as a node id is the node id of the container that it gives.
pub node_id_to_container_id_sound :
    (node_id id : Text)
    → node_id_to_container_id node_id ≡ ok id
    → node_id ≡ container_id_to_node_id id
unfolding node_id_to_container_id container_id_to_node_id
node_id_to_container_id_sound node_id id e = ground (arith, append-trim_suffix node_id node_suffix)

node_controls_lem :
    (cs : List ExtControl) (entry : ControlEntry) (acc : Dict ControlEntry) (k : Text)
    → (Dict.lookup k (node_controls_from cs entry acc) ≡ none)
      ↔ ((find_handler cs k ≡ none) × (Dict.lookup k acc ≡ none))
unfolding node_controls_from find_handler
node_controls_lem [] entry acc k = ground arith
node_controls_lem (c ∷ cs) entry acc k = ground (
  arith,
  node_controls_lem cs entry (Dict.insert c.control.id entry acc) k,
  lookup-insert c.control.id k entry acc,
)

traffic_controls_lem :
    (cs : List ExtControl) (acc : Dict Control) (k : Text)
    → (Dict.lookup k (traffic_controls_from cs acc) ≡ none)
      ↔ ((find_handler cs k ≡ none) × (Dict.lookup k acc ≡ none))
unfolding traffic_controls_from find_handler
traffic_controls_lem [] acc k = ground arith
traffic_controls_lem (c ∷ cs) acc k = ground (
  arith,
  traffic_controls_lem cs (Dict.insert c.control.id c.control acc) k,
  lookup-insert c.control.id k c.control acc,
)

module _ (h : Host) where
  offered_iff :
      (k : Text)
      → (Dict.lookup k (get_traffic_controls h) ≡ none) ↔ (find_handler (get_controls h) k ≡ none)
  unfolding get_traffic_controls Dict.lookup
  offered_iff k = ground (arith, traffic_controls_lem (get_controls h) [] k)

  in_nodes_iff :
      (k : Text) (timestamp : ℕ) (dead : Bool)
      → (Dict.lookup k (get_traffic_node_controls h timestamp dead) ≡ none)
        ↔ (find_handler (get_controls h) k ≡ none)
  unfolding get_traffic_node_controls Dict.lookup
  in_nodes_iff k timestamp dead = ground (
    arith,
    node_controls_lem (get_controls h)
        (record { timestamp = timestamp; value = record { dead = dead } }) [] k,
  )

  -- A control that is in the report's list has an entry in every node, and the other way round.
  listed_iff_in_nodes :
      (k : Text) (timestamp : ℕ) (dead : Bool)
      → (Dict.lookup k (get_traffic_controls h) ≢ none)
        ↔ (Dict.lookup k (get_traffic_node_controls h timestamp dead) ≢ none)
  listed_iff_in_nodes k timestamp dead =
      ground (arith, offered_iff k, in_nodes_iff k timestamp dead)

  get_handler_known :
      (s : Store) (id k : Text) (c : Container)
      → container s id ≡ some c
      → get_handler h s (container_id_to_node_id id) k
        ≡ bind_pid (container_id_to_node_id id) k c.pid (find_handler (get_controls h) k)
  unfolding get_handler
  get_handler_known s id k c e = rw (node_id_to_container_id-container_id_to_node_id id, e)

  -- On a container that the store holds, `GetHandler` accepts exactly the controls of the report.
  pub handled_iff_listed :
      (s : Store) (id k : Text) (c : Container)
      → container s id ≡ some c
      → ((f : Handler) × (get_handler h s (container_id_to_node_id id) k ≡ ok f))
        ↔ (Dict.lookup k (get_traffic_controls h) ≢ none)
  handled_iff_listed s id k c e = (
    λ p missing.
        let (f, x) = p in
        let unknown = (offered_iff k).0 missing in cc (x, get_handler_known s id k c e, unknown),
    λ listed. elim (Option-cases (find_handler (get_controls h) k)) [
      | inl unknown ↦ absurd (listed ((offered_iff k).1 unknown))
      | inr (g, found) ↦ (
        g c.pid,
        get_handler_known s id k c e ∙ ap (bind_pid (container_id_to_node_id id) k c.pid) found,
      )
    ],
  )

  abbrev pub Found : Store → Text → Text → Handler → Type 0
  Found s id k f =
      (c : Container) × (g : ℕ → Handler) × (container s id ≡ some c)
      × (find_handler (get_controls h) k ≡ some g)
      × (f ≡ g c.pid)

  bind_pid_sound :
      (node_id k : Text) (pid : ℕ) (m : Option (ℕ → Handler)) (f : Handler)
      → bind_pid node_id k pid m ≡ ok f
      → (g : ℕ → Handler) × (m ≡ some g) × (f ≡ g pid)
  bind_pid_sound node_id k pid none f e = cc
  bind_pid_sound node_id k pid (some g) f e = (g, refl, sym (cc))

  handler_of_sound :
      (s : Store) (node_id id k : Text) (o : Option Container) (f : Handler)
      → container s id ≡ o
      → handler_of h node_id k id o ≡ ok f
      → Found s id k f
  handler_of_sound s node_id id k none f eo e = cc
  handler_of_sound s node_id id k (some c) f eo e =
      let (g, found, bound) = bind_pid_sound node_id k c.pid _ f e in (c, g, eo, found, bound)

  handler_at_sound :
      (s : Store) (node_id k : Text) (r : Result Text) (f : Handler)
      → node_id_to_container_id node_id ≡ r
      → handler_at h s node_id k r ≡ ok f
      → (id : Text) × (node_id ≡ container_id_to_node_id id) × Found s id k f
  handler_at_sound s node_id k (err x) f er e = cc
  handler_at_sound s node_id k (ok id) f er e = (
    id,
    node_id_to_container_id_sound node_id id er,
    handler_of_sound s node_id id k (container s id) f refl e,
  )

  pub get_handler_sound :
      (s : Store) (node_id k : Text) (f : Handler)
      → get_handler h s node_id k ≡ ok f
      → (id : Text) × (node_id ≡ container_id_to_node_id id) × Found s id k f
  unfolding get_handler
  get_handler_sound s node_id k f e =
      handler_at_sound s node_id k (node_id_to_container_id node_id) f refl e
