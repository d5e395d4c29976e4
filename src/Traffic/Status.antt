-- ===== src/Traffic/Status.antt =====
-- main.go: the cached parameters of one network namespace, and their setters.
use scope_network.Prelude.{[], ◌++◌, if◌then◌else◌}
use scope_network.Text.{Text, codes, same}

pub record TrafficControlStatus : Type 0 where
  pub dpod : Text
  pub latency : Text
  pub packet_loss : Text

-- `String`
unfoldable pub to_string : TrafficControlStatus → Text
to_string s = s.latency ++ (codes " " ++ s.packet_loss)

-- Both assignments are made, the second also where the argument is empty.
unfoldable pub set_latency : Text → TrafficControlStatus → TrafficControlStatus
unfolding same
set_latency latency s =
    let s' = if same latency [] then record s { latency = codes "-" } else s in
    record s' { latency = latency }

unfoldable pub set_packet_loss : Text → TrafficControlStatus → TrafficControlStatus
unfolding same
set_packet_loss loss s =
    let s' = if same loss [] then record s { packet_loss = codes "-" } else s in
    record s' { packet_loss = loss }

abbrev pub init : TrafficControlStatus
init = record { dpod = codes "-"; latency = codes "-"; packet_loss = codes "-" }
