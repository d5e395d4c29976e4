-- ===== src/Tests/Lives.antt =====
-- The life of the plugin at concrete values.
use scope_network.Prelude.{[], ◌∷◌, refl, arith, none, List, true}
use scope_network.Dict
use scope_network.Dict.{Dict}
use scope_network.Docker
use scope_network.Docker.{Client}
use scope_network.Report.Nodes.{Node, get_container_nodes}
use scope_network.Report.Raw.{new_reporter}
use scope_network.Plugin.{Plugin, main}
use scope_network.Plugin.Life.{Files, Turn, of_main, of_handler, interrupt, begin, run}
use scope_network.Plugin.Life.Interrupted.{no_files}
use scope_network.Plugin.Life.Started.{Settled, settles}
use scope_network.Tests.Sample.{nodes_of, host, ready, daemon, client, in_order}

-- A socket that an earlier process has left.
abbrev stale : Files
stale = record { directory = true; socket = true }

abbrev removed : Files → Files
removed f = no_files

abbrev four_turns : List Turn
four_turns = of_main ∷ of_handler ∷ of_main ∷ of_main ∷ of_main ∷ []

settles_example :
    Settled (main none none none) (run none none none removed four_turns (begin stale))
unfolding run
settles_example = settles none none none removed four_turns stale (λ f. refl) (omega arith) refl

abbrev interrupted_turns : List Turn
interrupted_turns = of_main ∷ of_handler ∷ interrupt ∷ of_handler ∷ []

-- A plugin that serves, and its container after a round of the Docker client.
abbrev plugin : Plugin
plugin = record { reporter = new_reporter client.store; client = client }

abbrev shown : Dict Node
shown =
    nodes_of (get_container_nodes host in_order (Docker.start (daemon ∷ []) client).1.store ready).0
