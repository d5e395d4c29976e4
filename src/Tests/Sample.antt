-- ===== src/Tests/Sample.antt =====
-- A host, a Docker daemon, a store and a codec for the examples.
use scope_network.Prelude.{true, false, [], ◌∷◌, refl, none, some}
use scope_network.Text.{Text, codes, same}
use scope_network.Dict
use scope_network.Dict.{Dict, Distinct, IsIterationOrder}
use scope_network.Errors.{external, ok, err}
use scope_network.Store.{Container, Store, running, stopped}
use scope_network.Docker.{DaemonState, DockerContainer, known, no_such_container, Daemon, Client}
use scope_network.Traffic.Host.{Host}
use scope_network.Traffic.Act.{World}
use scope_network.Errors.{Outcome, returns}
use scope_network.Report.Nodes.{Node}
use scope_network.Traffic.Steady.{link_text}
use scope_network.Traffic.Status.{init}
use scope_network.Plugin.{Codec}

abbrev pub net_id : Text
net_id = codes "4026531993"

abbrev pub live_state : DaemonState
live_state = record {
  is_running = true;
  is_paused = false;
  is_restarting = false;
  is_oom_killed = false;
  is_dead = false;
  pid = 7;
}

abbrev pub web : DockerContainer
web = record { state = live_state; name = codes "/k8s_web_pod1_default_u1_0" }

-- Every namespace can be entered, and every command succeeds.
abbrev pub host : Host
host = record {
  read_link = λ t path. ok (link_text net_id);
  enter = λ t ns. none;
  run = λ t c. none;
  influx_client = λ t. none;
  query = λ t db command. ok (record { results = [] });
  unix = λ t. t;
  intn = λ s n. 0;
  now = λ t. t;
  docker_client = λ t. none;
  inspect = λ t id. known web;
}

-- No namespace can be entered.
abbrev pub closed_host : Host
closed_host = record host { enter = λ t ns. some (external (codes "no such process")) }

abbrev pub ready : World
ready = record { cache = some []; commands = []; moment = 0 }

abbrev pub no_cache : World
no_cache = record { cache = none; commands = []; moment = 0 }

abbrev pub id1 : Text
id1 = codes "c1"

abbrev pub id2 : Text
id2 = codes "c2"

abbrev pub two_containers : Store
two_containers = record {
  containers =
      (id1, record { state = running; pid = 7 }) ∷ (id2, record { state = stopped; pid = 8 }) ∷ [];
}

abbrev pub in_order : Dict Container → Dict Container
in_order es = es

pub in_order-IsIterationOrder : IsIterationOrder in_order
in_order-IsIterationOrder = record { once = λ m d. d; visits = λ m k d. refl }

pub two_containers-IsStore : Distinct two_containers.containers
two_containers-IsStore = unfold Dict.lookup in unfold same in (refl, (refl, tt))

-- A codec that reads a request of the control that its body names, on the first container.
abbrev pub codec : Codec
codec = record {
  decode_request = λ body. ok (record { node_id = codes "c1;<container>"; control = body });
  encode_response = λ r. ok (codes "{}");
  encode_report = λ r. ok (codes "report");
}

-- A daemon that lists `id1`, and then sends the end of it.
abbrev pub daemon : Daemon
daemon = record {
  add_error = none;
  listing = ok (id1 ∷ []);
  inspect = λ id. known web;
  events = (record { status = codes "die"; id = id1 }, known web) ∷ [];
  remove_error = none;
}

-- A daemon under which the listed container is gone.
abbrev pub forgetful_daemon : Daemon
forgetful_daemon = record daemon { inspect = λ id. no_such_container }

abbrev pub client : Client
client = record { store = record { containers = [] }; listeners = 0 }

-- The link of a namespace cannot be read.
abbrev pub unread_host : Host
unread_host = record host { read_link = λ t path. err (external (codes "no such file")) }

abbrev pub remembering : World
remembering = record ready { cache = some ((net_id, init) ∷ []) }

-- The nodes of a report that is made.
abbrev pub nodes_of : Outcome (Dict Node) → Dict Node
nodes_of (returns nodes) = nodes
nodes_of _ = []
