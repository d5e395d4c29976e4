-- ===== src/Report/Handlers.antt =====
-- report.go, `GetHandler`: the action of a control on the container of a node.
use scope_network.Prelude.{ℕ, List, [], ◌∷◌, Option, none, some, if◌then◌else◌}
use scope_network.Text.{Text, same}
use scope_network.Errors.{
  failed_to_get_container_id, container_not_found, unknown_control_id, Result, ok, err,
}
use scope_network.Store.{Container, Store, container}
use scope_network.Traffic.Act.{Act}
use scope_network.Traffic.Host.{Host}
use scope_network.Report.Controls.{ExtControl, get_controls}
use scope_network.Report.Nodes.{node_id_to_container_id}

abbrev pub Handler : Type 0
Handler = Act (Result (Unit {0}))

-- The first control with the id; `none` is the nil handler.
unfoldable pub find_handler : List ExtControl → Text → Option (ℕ → Handler)
find_handler [] control_id = none
find_handler (c ∷ cs) control_id =
    if same c.control.id control_id then some c.handler else find_handler cs control_id

abbrev pub bind_pid : Text → Text → ℕ → Option (ℕ → Handler) → Result Handler
bind_pid node_id control_id pid none = err (unknown_control_id control_id node_id)
bind_pid node_id control_id pid (some handler) = ok (handler pid)

module _ (h : Host) where
  abbrev pub handler_of : Text → Text → Text → Option Container → Result Handler
  handler_of node_id control_id id none = err (container_not_found id)
  handler_of node_id control_id id (some c) =
      bind_pid node_id control_id c.pid (find_handler (get_controls h) control_id)

  abbrev pub handler_at : Store → Text → Text → Result Text → Result Handler
  handler_at s node_id control_id (err e) = err (failed_to_get_container_id node_id e)
  handler_at s node_id control_id (ok id) = handler_of node_id control_id id (container s id)

  unfoldable pub get_handler : Store → Text → Text → Result Handler
  get_handler s node_id control_id =
      handler_at s node_id control_id (node_id_to_container_id node_id)
