-- ===== src/Report/Frame.antt =====
-- report.go: a report, made or not, leaves the status cache of tc.go alone and runs no command.
use scope_network.Prelude.{ℕ, ◌+◌, Bool, true, false, [], ◌∷◌, ◌≡◌, refl, arith}
use scope_network.Text.{Text}
use scope_network.Dict.{Dict}
use scope_network.Errors.{Outcome, returns, panics, exits, Result}
use scope_network.Store.{
  State, created, running, stopped, destroyed, Container, Store, visit_all, for_each,
}
use scope_network.Traffic.Act.{World}
use scope_network.Traffic.Host.{Host, random}
use scope_network.Pods.{get_pod, get_status_by_pod}
use scope_network.Report.Nodes.{Node, add_node, by_state, visit_container, get_container_nodes}
use scope_network.Report.Raw.{Report, Reporter, make_report, raw_report}

-- The cache and the commands are as they were.
abbrev pub SameTraffic : World → World → Type 0
SameTraffic w w' = (w'.cache ≡ w.cache) × (w'.commands ≡ w.commands)

module _ (h : Host) where
  get_pod-SameTraffic : (id : Text) (w : World) → SameTraffic w (get_pod h id w).1
  unfolding get_pod
  get_pod-SameTraffic id w = ground arith

  get_status_by_pod-SameTraffic :
      (pod : Text) (w : World) → SameTraffic w (get_status_by_pod h pod w).1
  unfolding get_status_by_pod random
  get_status_by_pod-SameTraffic pod w = ground arith

  add_node-SameTraffic :
      (timestamp : ℕ) (dead : Bool) (id : Text) (nodes : Dict Node) (w : World)
      → SameTraffic w (add_node h timestamp dead id nodes w).1
  unfolding add_node
  add_node-SameTraffic timestamp dead id nodes w =
      grind (arith, get_pod-SameTraffic, get_status_by_pod-SameTraffic)

  by_state-SameTraffic :
      (st : State) (timestamp : ℕ) (id : Text) (nodes : Dict Node) (w : World)
      → SameTraffic w (by_state h st timestamp id nodes w).1
  by_state-SameTraffic created timestamp id nodes w = (refl, refl)
  by_state-SameTraffic destroyed timestamp id nodes w = (refl, refl)
  by_state-SameTraffic running timestamp id nodes w =
      add_node-SameTraffic timestamp false id nodes w
  by_state-SameTraffic stopped timestamp id nodes w = add_node-SameTraffic timestamp true id nodes w

  visit_container-SameTraffic :
      (timestamp : ℕ) (id : Text) (c : Container) (r : Outcome (Dict Node)) (w : World)
      → SameTraffic w (visit_container h timestamp id c (r, w)).1
  visit_container-SameTraffic timestamp id c (returns nodes) w =
      by_state-SameTraffic c.state timestamp id nodes w
  visit_container-SameTraffic timestamp id c panics w = (refl, refl)
  visit_container-SameTraffic timestamp id c exits w = (refl, refl)

  visit_all-SameTraffic :
      (timestamp : ℕ) (es : Dict Container) (r : Outcome (Dict Node)) (w : World)
      → SameTraffic w (visit_all es (visit_container h timestamp) (r, w)).1
  unfolding visit_all
  visit_all-SameTraffic timestamp [] r w = (refl, refl)
  visit_all-SameTraffic timestamp ((id, c) ∷ es) r w =
      let (r', w') = visit_container h timestamp id c (r, w) in
      ground (
        arith,
        visit_container-SameTraffic timestamp id c r w,
        visit_all-SameTraffic timestamp es r' w',
      )

  get_container_nodes-SameTraffic :
      (shuffle : Dict Container → Dict Container) (s : Store) (w : World)
      → SameTraffic w (get_container_nodes h shuffle s w).1
  unfolding get_container_nodes for_each
  get_container_nodes-SameTraffic shuffle s w = ground (
    arith,
    visit_all-SameTraffic (h.now w.moment) (shuffle s.containers) (returns [])
        (record w { moment = w.moment + 1 }),
  )

  pub raw_report-SameTraffic :
      (shuffle : Dict Container → Dict Container) (marshal : Report → Result Text) (r : Reporter)
      (w : World)
      → SameTraffic w (raw_report h shuffle marshal r w).1
  unfolding raw_report make_report
  raw_report-SameTraffic shuffle marshal r w = grind (arith, get_container_nodes-SameTraffic)
