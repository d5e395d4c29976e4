-- ===== src/Tests/Controls.antt =====
-- tc.go and the pods at concrete values.
use scope_network.Prelude.{◌≤◌, List, [], ◌∷◌, ◌≡◌, refl, none, arith, length}
use scope_network.Text.{Text, codes, same}
use scope_network.Text.Split.{join}
use scope_network.Text.Affix.{trim_prefix}
use scope_network.Dict
use scope_network.Errors.{Error, external, failed_to_read, failed_to_get_namespace_id, ok, returns}
use scope_network.Traffic.Host.{net_ns_path, replace_command}
use scope_network.Traffic.Cache.{cached}
use scope_network.Traffic.Controls.{clear_traffic_control_settings}
use scope_network.Traffic.Steady.{IsSteady}
use scope_network.Traffic.Clear.{clear_forgets}
use scope_network.Pods.{parse_pod_name}
use scope_network.Pods.Names.{parse_pod_name-join, parse_pod_name_sound}
use scope_network.Tests.Sample.{host, net_id, remembering, web}

host-IsSteady : IsSteady host 7 net_id
host-IsSteady = record { link = λ t. refl; enters = λ t. refl; runs = λ t c. refl }

abbrev unread : Error
unread =
    failed_to_get_namespace_id (failed_to_read (net_ns_path 7) (external (codes "no such file")))

clear_forgets_example :
    let (r, w') = clear_traffic_control_settings host 7 remembering in
    (r ≡ returns (ok tt))
    × (w'.commands ≡ record { net_ns = net_ns_path 7; argv = replace_command } ∷ [])
    × (cached net_id w'.cache ≡ none)
unfolding same Dict.lookup
clear_forgets_example = clear_forgets host 7 net_id net_id remembering host-IsSteady (refl, tt)

parse_pod_name-join_example :
    parse_pod_name (codes "/k8s_web_pod1_default_u1_0") ≡ ok (codes "pod1")
unfolding join
parse_pod_name-join_example =
    parse_pod_name-join (codes "web") (codes "pod1") (codes "default") (codes "u1") (codes "0") []
      (omega arith)

parse_pod_name_sound_example :
    (container : Text) × (rest : List Text) × (trim_prefix web.name (codes "/")
      ≡ join (codes "k8s" ∷ container ∷ codes "pod1" ∷ rest) (codes "_"))
    × (3 ≤ length rest)
parse_pod_name_sound_example =
    parse_pod_name_sound web.name (codes "pod1") parse_pod_name-join_example
