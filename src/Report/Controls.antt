-- ===== src/Report/Controls.antt =====
-- report.go: the five controls and their handlers, and the templates of the report.
use scope_network.Prelude.{ℕ, List, [], ◌∷◌, ◌++◌}
use scope_network.Text.{Text, codes}
use scope_network.Dict
use scope_network.Dict.{Dict}
use scope_network.Errors.{Result}
use scope_network.Traffic.Act.{Act}
use scope_network.Traffic.Host.{Host}
use scope_network.Traffic.Controls.{
  apply_latency, apply_packet_loss, clear_traffic_control_settings,
}

abbrev pub network_control_table_prefix : Text
network_control_table_prefix = codes "network-control-table-"

pub record TableTemplate : Type 0 where
  pub id : Text
  pub label : Text
  pub prefix : Text

-- The priority is a decimal number, kept as its tenths.
pub record MetadataTemplate : Type 0 where
  pub id : Text
  pub label : Text
  pub truncate : ℕ
  pub datatype : Text
  pub priority : ℕ
  pub from : Text

pub record Control : Type 0 where
  pub id : Text
  pub human : Text
  pub icon : Text
  pub rank : ℕ

pub record ExtControl : Type 0 where
  pub control : Control
  pub handler : ℕ → Act (Result (Unit {0}))

unfoldable pub get_metadata_template : Dict MetadataTemplate
unfolding Dict.insert
get_metadata_template =
    Dict.insert (codes "network-control-latency")
      (record {
        id = codes "network-control-latency";
        label = codes "Latency";
        truncate = 0;
        datatype = [];
        priority = 135;
        from = codes "latest";
      })
      (Dict.insert (codes "network-control-pktloss")
        (record {
          id = codes "network-control-pktloss";
          label = codes "Packet Loss";
          truncate = 0;
          datatype = [];
          priority = 136;
          from = codes "latest";
        })
        [])

unfoldable pub get_table_template : Dict TableTemplate
unfolding Dict.insert
get_table_template =
    Dict.insert (codes "network-control-table")
      (record {
        id = codes "network-control-table";
        label = codes "Network Control";
        prefix = network_control_table_prefix;
      })
      []

-- The loop that appends one list to another.
append_controls : List ExtControl → List ExtControl → List ExtControl
append_controls controls [] = controls
append_controls controls (c ∷ cs) = append_controls (controls ++ c ∷ []) cs

-- The loop of `getTrafficControls`.
unfoldable pub traffic_controls_from : List ExtControl → Dict Control → Dict Control
traffic_controls_from [] controls = controls
traffic_controls_from (c ∷ cs) controls =
    traffic_controls_from cs (Dict.insert c.control.id c.control controls)

module _ (h : Host) where
  unfoldable pub get_latency_controls : List ExtControl
  get_latency_controls =
      record {
        control = record {
          id = network_control_table_prefix ++ codes "slow";
          human = codes "Traffic speed: slow";
          icon = codes "fa-hourglass-1";
          rank = 20;
        };
        handler = λ pid. apply_latency h pid (codes "2000ms");
      }
      ∷ record {
        control = record {
          id = network_control_table_prefix ++ codes "medium";
          human = codes "Traffic speed: medium";
          icon = codes "fa-hourglass-2";
          rank = 21;
        };
        handler = λ pid. apply_latency h pid (codes "1000ms");
      }
      ∷ record {
        control = record {
          id = network_control_table_prefix ++ codes "fast";
          human = codes "Traffic speed: fast";
          icon = codes "fa-hourglass-3";
          rank = 22;
        };
        handler = λ pid. apply_latency h pid (codes "500ms");
      }
      ∷ []

  unfoldable pub get_packet_loss_controls : List ExtControl
  get_packet_loss_controls =
      record {
        control = record {
          id = network_control_table_prefix ++ codes "pkt-drop-low";
          human = codes "Packet drop: low";
          icon = codes "fa-cut";
          rank = 23;
        };
        handler = λ pid. apply_packet_loss h pid (codes "10%");
      }
      ∷ []

  unfoldable pub get_general_controls : List ExtControl
  get_general_controls =
      record {
        control = record {
          id = network_control_table_prefix ++ codes "clear";
          human = codes "Clear traffic control settings";
          icon = codes "fa-times-circle";
          rank = 24;
        };
        handler = λ pid. clear_traffic_control_settings h pid;
      }
      ∷ []

  unfoldable pub get_controls : List ExtControl
  unfolding append_controls get_latency_controls get_packet_loss_controls get_general_controls
  get_controls =
      append_controls (append_controls get_latency_controls get_packet_loss_controls)
        get_general_controls

  unfoldable pub get_traffic_controls : Dict Control
  unfolding traffic_controls_from
  get_traffic_controls = traffic_controls_from get_controls []
