-- ===== src/Report/Raw.antt =====
-- report.go, `RawReport`: the whole report, and its encoding. The encoder (encoding/json) is an
-- argument.
use scope_network.Prelude.{List, [], ◌∷◌}
use scope_network.Text.{Text, codes}
use scope_network.Dict.{Dict}
use scope_network.Errors.{failed_to_marshal_report, Result, ok, err}
use scope_network.Store.{Container, Store}
use scope_network.Traffic.Act.{Act, pure, if_err, ◌>>=◌}
use scope_network.Traffic.Host.{Host}
use scope_network.Report.Controls.{
  Control, MetadataTemplate, TableTemplate, get_traffic_controls, get_metadata_template,
  get_table_template,
}
use scope_network.Report.Nodes.{Node, get_container_nodes}

pub record Topology : Type 0 where
  pub nodes : Dict Node
  pub controls : Dict Control
  pub metadata_templates : Dict MetadataTemplate
  pub table_templates : Dict TableTemplate

pub record PluginSpec : Type 0 where
  pub id : Text
  pub label : Text
  pub description : Text
  pub interfaces : List Text
  pub api_version : Text

pub record Report : Type 0 where
  pub container : Topology
  pub plugins : List PluginSpec

pub record Reporter : Type 0 where
  pub store : Store

abbrev pub new_reporter : Store → Reporter
new_reporter s = record { store = s }

abbrev pub network_control : PluginSpec
network_control = record {
  id = codes "network-control";
  label = codes "Network control";
  description = codes "Adds Network controls to the running Docker containers";
  interfaces = codes "reporter" ∷ codes "controller" ∷ [];
  api_version = codes "1";
}

module _ (h : Host) (shuffle : Dict Container → Dict Container) where
  unfoldable pub make_report : Reporter → Act Report
  unfolding ◌>>=◌
  make_report r = do
    nodes ← get_container_nodes h shuffle r.store
    pure (record {
      container = record {
        nodes = nodes;
        controls = get_traffic_controls h;
        metadata_templates = get_metadata_template;
        table_templates = get_table_template;
      };
      plugins = network_control ∷ [];
    })

  unfoldable pub raw_report : (Report → Result Text) → Reporter → Act (Result Text)
  unfolding ◌>>=◌
  raw_report marshal r = do
    rpt ← make_report r
    if_err (marshal rpt) (λ e. pure (err (failed_to_marshal_report e))) λ raw. pure (ok raw)
