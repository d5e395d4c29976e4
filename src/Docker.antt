-- ===== src/Docker.antt =====
-- docker.go: the client that keeps the store in step with the Docker daemon. What the daemon
-- answers (go-dockerclient) is an argument: an `Inspection` for each id that is looked up.
pub mod Sync
pub mod Rounds
pub mod Crash
pub mod Invariant
use scope_network.Prelude.{
  ℕ, zero, ◌+◌, ◌-◌, Bool, true, false, ◌||◌, List, [], ◌∷◌, Option, none, some, if◌then◌else◌,
}
use scope_network.Text.{Text, codes, same}
use scope_network.Errors.{Error, failed_to_connect, Result, ok, err}
use scope_network.Store.{
  State, created, running, stopped, destroyed, Container, Store, set_container, delete_container,
}

-- The fields of go-dockerclient's `State` and `Container` that the program reads.
pub record DaemonState : Type 0 where
  pub is_running : Bool
  pub is_paused : Bool
  pub is_restarting : Bool
  pub is_oom_killed : Bool
  pub is_dead : Bool
  pub pid : ℕ

pub record DockerContainer : Type 0 where
  pub state : DaemonState
  pub name : Text

-- What `InspectContainer` returns: a container, its error `NoSuchContainer`, or another error.
pub data Inspection : Type 0 where
  known : DockerContainer → Inspection
  no_such_container : Inspection
  failed : Error → Inspection

-- The fields of go-dockerclient's `APIEvents` that the program reads.
pub record ApiEvent : Type 0 where
  pub status : Text
  pub id : Text

-- A pointer that may be nil, and an error that may be nil.
unfoldable pub get_container : Inspection → Option DockerContainer × Option Error
get_container (known c) = (some c, none)
get_container no_such_container = (none, none)
get_container (failed e) = (none, some e)

abbrev state_of : Option DockerContainer × Option Error → Option DaemonState × Option Error
state_of (none, e) = (none, e)
state_of (some c, e) = (some c.state, none)

unfoldable pub get_container_state : Inspection → Option DaemonState × Option Error
unfolding get_container
get_container_state i = state_of (get_container i)

abbrev pid_of : Option DaemonState × Option Error → ℕ × Option Error
pid_of (none, e) = (0, e)
pid_of (some st, e) = (st.pid, none)

unfoldable pub get_container_pid : Inspection → ℕ × Option Error
unfolding get_container_state
get_container_pid i = pid_of (get_container_state i)

unfoldable pub update_container : Store → Text → State → ℕ → Store
update_container s id destroyed pid = delete_container s id
update_container s id st pid = set_container s id (record { state = st; pid = pid })

-- The `switch` of `getContainers`.
unfoldable pub listed_state : DaemonState → State
listed_state st =
    if st.is_dead || st.is_paused || st.is_restarting || st.is_oom_killed
    then stopped
    else if st.is_running
    then running
    else destroyed

-- How a scan or a session ends: it returns, or it dereferences a nil pointer.
pub data End : Type 0 where
  returned panicked : End

-- One round of the loop of `getContainers`, with its rounds to come. A failed look-up is logged and
-- skipped.
abbrev on_state :
    Option DaemonState × Option Error → Text → (Store → End × Store) → Store → End × Store
on_state (st, some e) id rest s = rest s
on_state (none, none) id rest s = (panicked, s)
on_state (some st, none) id rest s = rest (update_container s id (listed_state st) st.pid)

-- `inspect` is the daemon's answer to the look-up of each listed id.
unfoldable pub get_containers : (Text → Inspection) → List Text → Store → End × Store
unfolding get_container_state
get_containers inspect [] s = (returned, s)
get_containers inspect (id ∷ ids) s =
    on_state (get_container_state (inspect id)) id (get_containers inspect ids) s

-- The `switch` of `handleEvent`; `none` is its `default`.
unfoldable pub event_state : Text → Option State
unfolding same
event_state status =
    if same status (codes "create")
    then some created
    else if same status (codes "destroy")
    then some destroyed
    else if same status (codes "start") || same status (codes "unpause")
    then some running
    else if same status (codes "die") || same status (codes "pause")
    then some stopped
    else none

abbrev record_state : Store → Text → State → ℕ × Option Error → Store
record_state s id st (pid, some e) = s
record_state s id st (pid, none) = update_container s id st pid

unfoldable pub handle_event : ApiEvent → Inspection → Store → Store
unfolding get_container_pid
handle_event event i s = elim (event_state event.status) [
  | none ↦ s
  | some st ↦ record_state s event.id st (get_container_pid i)
]

-- The loop over the channel, until it is closed: each event with what the daemon answers then.
unfoldable pub handle_events : List (ApiEvent × Inspection) → Store → Store
handle_events [] s = s
handle_events ((event, i) ∷ events) s = handle_events events (handle_event event i s)

-- What the daemon does in one round of `Start`.
pub record Daemon : Type 0 where
  pub add_error : Option Error
  pub listing : Result (List Text)
  pub inspect : Text → Inspection
  pub events : List (ApiEvent × Inspection)
  pub remove_error : Option Error

-- The store of the client, and how many of its event listeners the daemon's client holds.
pub record Client : Type 0 where
  pub store : Store
  pub listeners : ℕ

-- `NewDockerClient`, with the error of the library's `NewClient`.
unfoldable pub new_docker_client : Option Error → Store → Result Client
new_docker_client (some e) s = err (failed_to_connect e)
new_docker_client none s = ok (record { store = s; listeners = 0 })

abbrev follow_events : List (ApiEvent × Inspection) → End × Store → End × Store
follow_events events (panicked, s) = (panicked, s)
follow_events events (returned, s) = (returned, handle_events events s)

-- From the listing on: an error ends the round, and so does the end of the events.
abbrev pub scan_and_follow : Result (List Text) → Daemon → Store → End × Store
scan_and_follow (err e) d s = (returned, s)
scan_and_follow (ok ids) d s = follow_events d.events (get_containers d.inspect ids s)

-- The deferred removal of the listener, also after a panic.
abbrev remove_listener : Option Error → ℕ → ℕ
remove_listener none n = n - 1
remove_listener (some e) n = n

abbrev with_listener : Option Error → Daemon → Client → End × Client
with_listener (some e) d c = (returned, c)
with_listener none d c =
    let (end, s) = scan_and_follow d.listing d c.store in
    (end, record { store = s; listeners = remove_listener d.remove_error (c.listeners + 1) })

-- The function literal of `Start`.
unfoldable pub session : Daemon → Client → End × Client
session d c = with_listener d.add_error d c

abbrev go_on : End × Client → (Client → End × Client) → End × Client
go_on (panicked, c) rest = (panicked, c)
go_on (returned, c) rest = rest c

-- `Start` for the rounds that the list describes; a panic ends the program.
unfoldable pub start : List Daemon → Client → End × Client
start [] c = (returned, c)
start (d ∷ ds) c = go_on (session d c) (start ds)
