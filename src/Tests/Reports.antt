-- ===== src/Tests/Reports.antt =====
-- report.go at concrete values.
use scope_network.Store.{for_each}
use scope_network.Report.Nodes.{add_node}
use scope_network.Pods.{get_status_by_pod}
use scope_network.Pods.{get_pod}
use scope_network.Prelude.{true, false, [], ◌≡◌, ◌≢◌, ◌↔◌, refl, Option, none, some}
use scope_network.Text.{Text, codes, same}
use scope_network.Dict
use scope_network.Dict.{Dict}
use scope_network.Errors.{ok}
use scope_network.Store.{running, container}
use scope_network.Pods.{NetworkControlStatus}
use scope_network.Report.Controls.{get_traffic_controls}
use scope_network.Report.Nodes.{Node, make_node, container_id_to_node_id, get_container_nodes}
use scope_network.Report.Handlers.{Handler, get_handler}
use scope_network.Report.Shown.{get_container_nodes_show, IsDrawn}
use scope_network.Report.Offered.{handled_iff_listed}
use scope_network.Tests.Sample.{
  nodes_of, host, ready, id1, two_containers, two_containers-IsStore, in_order,
  in_order-IsIterationOrder,
}

abbrev shown : Dict Node
shown = nodes_of (get_container_nodes host in_order two_containers ready).0

get_container_nodes_show_example :
    (s : NetworkControlStatus) × IsDrawn host s
    × (Dict.lookup (container_id_to_node_id id1) shown ≡ some (make_node host 0 false s))
unfolding get_container_nodes for_each add_node get_pod get_status_by_pod container Dict.lookup same
get_container_nodes_show_example =
    get_container_nodes_show host in_order two_containers ready
      (get_container_nodes host in_order two_containers ready).1 shown id1 in_order-IsIterationOrder
      two_containers-IsStore refl

abbrev node_in : Option Node → Node
node_in (some node) = node
node_in none =
    make_node host 0 true
      (record { spod = []; dpod = []; bandwidth = []; packet = []; latency = [] })

abbrev first_node : Node
first_node = node_in (Dict.lookup (container_id_to_node_id id1) shown)

abbrev slow : Text
slow = codes "network-control-table-slow"

handled_iff_listed_example :
    ((f : Handler) × (get_handler host two_containers (codes "c1;<container>") slow ≡ ok f))
    ↔ (Dict.lookup slow (get_traffic_controls host) ≢ none)
unfolding container_id_to_node_id container Dict.lookup same
handled_iff_listed_example =
    handled_iff_listed host two_containers id1 slow (record { state = running; pid = 7 }) refl
