-- ===== src/Plugin/EndToEnd.antt =====
-- main.go: the Docker client and the reporter of one plugin, which share its store.
use scope_network.Text.{Text}
use scope_network.Dict
use scope_network.Dict.{Dict}
use scope_network.Docker
use scope_network.Docker.{Client}
use scope_network.Traffic.Host.{Host}
use scope_network.Plugin.{Plugin}
