-- ===== src/Report/Numbers.antt =====
-- report.go and tc.go: the numbers that the nodes of a report show.
use scope_network.Prelude.{ℕ, ◌≤◌, ◌<◌, ◌≡◌, Option, some, ◌++◌}
use scope_network.Text.{Text, codes}
use scope_network.Text.Decimal.{itoa}
use scope_network.Dict
use scope_network.Dict.{Dict}
use scope_network.Store.{Store}
use scope_network.Traffic.Host.{Host}
use scope_network.Report.Controls.{network_control_table_prefix}
use scope_network.Report.Nodes.{Node}

-- What `rand.Intn` promises.
abbrev pub Draws : Host → Type 0
Draws h = (seed n : ℕ) → 0 < n → h.intn seed n < n

-- The table of the node shows a latency from 140 up to 229 and from 5 up to 79 packets.
abbrev pub ShowsNumbers : Node → Type 0
ShowsNumbers node =
    (t latency packet : ℕ) × (140 ≤ latency)
    × (latency < 230)
    × (5 ≤ packet)
    × (packet < 80)
    × (Dict.lookup (network_control_table_prefix ++ codes "net-bandwidth") node.latest
        ≡ some (record { timestamp = t; value = itoa latency }))
    × (Dict.lookup (network_control_table_prefix ++ codes "net-packet") node.latest
        ≡ some (record { timestamp = t; value = itoa packet }))
