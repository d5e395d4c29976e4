-- ===== src/Report/Nodes.antt =====
-- report.go: the nodes of the report, one for each container that runs or has stopped.
use scope_network.Prelude.{
  ℕ, Bool, true, false, List, [], ◌∷◌, ◌++◌, Option, none, some, if◌then◌else◌, not,
}
use scope_network.Text.{Text, codes}
use scope_network.Text.Affix.{has_suffix, trim_suffix}
use scope_network.Dict
use scope_network.Dict.{Dict}
use scope_network.Errors.{no_suffix, Result, ok, err, Outcome, returns, panics, exits}
use scope_network.Store.{State, created, running, stopped, destroyed, Container, Store, for_each}
use scope_network.Traffic.Act.{World, Act, pure, lift, ask, continue, if_err, ◌>>=◌}
use scope_network.Traffic.Host.{Host}
use scope_network.Pods.{NetworkControlStatus, get_pod, get_status_by_pod}
use scope_network.Report.Controls.{network_control_table_prefix, ExtControl, get_controls}

pub record ControlData : Type 0 where
  pub dead : Bool

pub record ControlEntry : Type 0 where
  pub timestamp : ℕ
  pub value : ControlData

pub record StringEntry : Type 0 where
  pub timestamp : ℕ
  pub value : Text

pub record Node : Type 0 where
  pub latest_controls : Dict ControlEntry
  pub latest : Dict StringEntry

abbrev pub node_suffix : Text
node_suffix = codes ";<container>"

unfoldable pub container_id_to_node_id : Text → Text
container_id_to_node_id id = id ++ node_suffix

unfoldable pub node_id_to_container_id : Text → Result Text
node_id_to_container_id id =
    if not (has_suffix id node_suffix)
    then err (no_suffix node_suffix id)
    else ok (trim_suffix id node_suffix)

-- The loop of `getTrafficNodeControls`.
unfoldable pub node_controls_from :
    List ExtControl → ControlEntry → Dict ControlEntry → Dict ControlEntry
node_controls_from [] entry controls = controls
node_controls_from (c ∷ cs) entry controls =
    node_controls_from cs entry (Dict.insert c.control.id entry controls)

abbrev pub pod_of : Result Text → Text
pod_of (ok pod) = pod
pod_of (err e) = []

module _ (h : Host) where
  unfoldable pub get_traffic_node_controls : ℕ → Bool → Dict ControlEntry
  unfolding node_controls_from
  get_traffic_node_controls timestamp dead =
      node_controls_from (get_controls h)
        (record { timestamp = timestamp; value = record { dead = dead } }) []

  -- The bandwidth of the table is the latency of the status.
  unfoldable pub make_node : ℕ → Bool → NetworkControlStatus → Node
  make_node timestamp dead status = record {
    latest_controls = get_traffic_node_controls timestamp dead;
    latest =
        Dict.insert (network_control_table_prefix ++ codes "dst-pod")
          (record { timestamp = timestamp; value = status.dpod })
          (Dict.insert (network_control_table_prefix ++ codes "net-bandwidth")
            (record { timestamp = timestamp; value = status.latency })
            (Dict.insert (network_control_table_prefix ++ codes "net-packet")
              (record { timestamp = timestamp; value = status.packet }) []));
  }

  -- A nil status panics at its first use.
  abbrev pub need_status : Option NetworkControlStatus → Act NetworkControlStatus
  need_status none = lift panics
  need_status (some s) = pure s

  -- The cases Stopped and Running: an error of the status ends the program.
  unfoldable pub add_node : ℕ → Bool → Text → Dict Node → Act (Dict Node)
  unfolding ◌>>=◌
  add_node timestamp dead id nodes = do
    spod ← get_pod h id
    status ← get_status_by_pod h (pod_of spod)
    if_err status (λ e. lift exits)
        λ s?. do
          s ← need_status s?
          pure (Dict.insert (container_id_to_node_id id) (make_node timestamp dead s) nodes)

  -- The callback of `getContainerNodes`, by the state of the container.
  abbrev pub by_state : State → ℕ → Text → Dict Node → Act (Dict Node)
  by_state created timestamp id nodes = pure nodes
  by_state destroyed timestamp id nodes = pure nodes
  by_state stopped timestamp id nodes = add_node timestamp true id nodes
  by_state running timestamp id nodes = add_node timestamp false id nodes

  -- The loop goes on while nothing panics.
  abbrev pub visit_container :
      ℕ → Text → Container → Outcome (Dict Node) × World → Outcome (Dict Node) × World
  visit_container timestamp id c (r, w) = continue r (by_state c.state timestamp id) w

  unfoldable pub get_container_nodes : (Dict Container → Dict Container) → Store → Act (Dict Node)
  unfolding ◌>>=◌
  get_container_nodes shuffle s = do
    timestamp ← ask h.now
    λ w. for_each shuffle s (visit_container timestamp) (returns [], w)
