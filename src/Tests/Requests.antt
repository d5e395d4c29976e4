-- ===== src/Tests/Requests.antt =====
-- main.go at concrete values.
use scope_network.Text.Affix.{trim_suffix}
use scope_network.Text.Affix.{has_suffix}
use scope_network.Store.{container}
use scope_network.Report.Nodes.{node_id_to_container_id}
use scope_network.Report.Handlers.{find_handler}
use scope_network.Report.Controls.{get_controls}
use scope_network.Plugin.{handle}
use scope_network.Dict.{lookup}
use scope_network.Prelude.{List, [], ◌∷◌, ◌≡◌, ◌≢◌, refl, none}
use scope_network.Text.{codes, same}
use scope_network.Errors.{Outcome, returns}
use scope_network.Report.Handlers.{get_handler}
use scope_network.Plugin.{
  Request, HttpReply, Arrival, to_report, to_control, raw, status_ok, perform_control, control,
  serve, initial_world,
}
use scope_network.Plugin.NilCache.{serve_never_applies}
use scope_network.Plugin.Replies.{control-status}
use scope_network.Tests.Sample.{host, ready, two_containers, in_order, codec}

abbrev slow_down : Request
slow_down = record {
  node_id = codes "c1;<container>";
  control = codes "network-control-table-slow";
}

-- A report and a clear come before.
abbrev history : List Arrival
history =
    record { store = two_containers; route = to_report }
    ∷ record { store = two_containers; route = to_control (codes "network-control-table-clear") }
    ∷ []

serve_never_applies_example :
    (perform_control host codec two_containers slow_down
      (serve host codec in_order history initial_world)).0
    ≢ returns none
unfolding same
serve_never_applies_example =
    serve_never_applies host codec in_order history two_containers slow_down refl

abbrev reply_of : Outcome HttpReply → HttpReply
reply_of (returns reply) = reply
reply_of _ = record { status = 0; body = raw [] }

abbrev clear_reply : HttpReply
clear_reply =
    reply_of (control host codec two_containers (codes "network-control-table-stop") ready).0

control-status_example : clear_reply.status ≡ status_ok
unfolding control perform_control handle get_handler node_id_to_container_id has_suffix container
    lookup trim_suffix find_handler get_controls
control-status_example =
    control-status host codec two_containers (codes "network-control-table-stop") ready
      (control host codec two_containers (codes "network-control-table-stop") ready).1 clear_reply
      (λ r. (codes "{}", refl)) refl
