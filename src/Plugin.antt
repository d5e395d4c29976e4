-- ===== src/Plugin.antt =====
-- main.go: the start of the plugin and its two HTTP handlers. The JSON of requests, responses and
-- reports (encoding/json) is an argument; so are the errors of the file system and of Docker.
pub mod Replies
pub mod NilCache
pub mod EndToEnd
pub mod Life
use scope_network.Prelude.{ℕ, List, [], ◌∷◌, Option, none, some}
use scope_network.Text.{Text, codes}
use scope_network.Dict.{Dict}
use scope_network.Errors.{
  Error, failed_to_create_client, failed_to_create_directory, failed_to_listen,
  failed_to_get_raw_report, failed_to_get_handler, handler_failed, Result, ok, err, Outcome,
  returns, panics, exits,
}
use scope_network.Store.{Container, Store, new_store}
use scope_network.Docker.{Client, new_docker_client}
use scope_network.Traffic.Act.{World, Act, pure, lift, if_err, ◌>>=◌, ◌>>◌}
use scope_network.Traffic.Host.{Host}
use scope_network.Report.Handlers.{Handler, get_handler}
use scope_network.Report.Raw.{Report, Reporter, new_reporter, raw_report}

pub record Request : Type 0 where
  pub node_id : Text
  pub control : Text

-- The text of the error, which is left out where it is empty.
pub record Response : Type 0 where
  pub error : Option Error

pub record Codec : Type 0 where
  pub decode_request : Text → Result Request
  pub encode_response : Response → Result Text
  pub encode_report : Report → Result Text

-- What is written to a connection: bytes, or the text of an error.
pub data Body : Type 0 where
  raw : Text → Body
  message : Error → Body

pub record HttpReply : Type 0 where
  pub status : ℕ
  pub body : Body

abbrev pub status_ok : ℕ
status_ok = 200

abbrev pub status_bad_request : ℕ
status_bad_request = 400

abbrev pub status_internal_server_error : ℕ
status_internal_server_error = 500

abbrev reply_encoded : Result Text → HttpReply
reply_encoded (err e) = record { status = status_internal_server_error; body = message e }
reply_encoded (ok text) = record { status = status_ok; body = raw text }

unfoldable pub send_response : Codec → Option Error → HttpReply
send_response codec error = reply_encoded (codec.encode_response (record { error = error }))

-- `if err := handler(); err != nil`.
abbrev pub handler_error : Result (Unit {0}) → Option Error
handler_error (ok done) = none
handler_error (err e) = some (handler_failed e)

-- The error with which `control` calls `sendResponse`, once the request is decoded.
unfoldable pub handle : Result Handler → Act (Option Error)
unfolding ◌>>=◌
handle (err e) = pure (some (failed_to_get_handler e))
handle (ok handler) = do result ← handler; pure (handler_error result)

module _ (h : Host) (codec : Codec) where
  unfoldable pub perform_control : Store → Request → Act (Option Error)
  perform_control s xreq = handle (get_handler h s xreq.node_id xreq.control)

  -- The handler of `/control`.
  unfoldable pub control : Store → Text → Act HttpReply
  unfolding ◌>>=◌
  control s body =
      if_err (codec.decode_request body)
        (λ e. pure (record { status = status_bad_request; body = message e }))
        λ xreq. do error ← perform_control s xreq; pure (send_response codec error)

  -- The handler of `/report`.
  unfoldable pub report : (Dict Container → Dict Container) → Store → Act HttpReply
  unfolding ◌>>=◌
  report shuffle s = do
    result ← raw_report h shuffle codec.encode_report (new_reporter s)
    if_err result
        (λ e. pure (record {
          status = status_internal_server_error;
          body = message (failed_to_get_raw_report e);
        }))
        λ text. pure (record { status = status_ok; body = raw text })

-- `setupSocket`, with the errors of `MkdirAll` and of `Listen`.
unfoldable pub setup_socket : Text → Text → Option Error → Option Error → Result (Unit {0})
setup_socket socket_path dir (some e) listen = err (failed_to_create_directory dir e)
setup_socket socket_path dir none (some e) = err (failed_to_listen socket_path e)
setup_socket socket_path dir none none = ok tt

-- The reporter and the Docker client share the store.
pub record Plugin : Type 0 where
  pub reporter : Reporter
  pub client : Client

abbrev with_client : Result Client → Result Plugin
with_client (err e) = err (failed_to_create_client e)
with_client (ok c) = ok (record { reporter = new_reporter c.store; client = c })

-- `NewPlugin`, with the error of the Docker library.
unfoldable pub new_plugin : Option Error → Result Plugin
unfolding new_docker_client
new_plugin refused = with_client (new_docker_client refused new_store)

-- What `main` leaves of the package's variables: it makes `neworkControlStatusCache`, which is
-- read nowhere, and not `trafficControlStatusCache`.
abbrev pub initial_world : World
initial_world = record { cache = none; commands = []; moment = 0 }

abbrev serving : Result (Unit {0}) → Result Plugin → Outcome (Plugin × World)
serving (err e) p = exits
serving (ok tt) (err e) = exits
serving (ok tt) (ok p) = returns (p, initial_world)

-- `main` up to `http.Serve`.
unfoldable pub main : Option Error → Option Error → Option Error → Outcome (Plugin × World)
unfolding setup_socket new_plugin
main mkdir listen docker =
    serving
      (setup_socket (codes "/var/run/scope/plugins/network-control/network-control.sock")
        (codes "/var/run/scope/plugins/network-control") mkdir listen)
      (new_plugin docker)

-- A request as `http.ServeMux` routes it, and the store at the time when it is handled.
pub data Route : Type 0 where
  to_report : Route
  to_control : Text → Route
  elsewhere : Route

pub record Arrival : Type 0 where
  pub store : Store
  pub route : Route

abbrev not_found : HttpReply
not_found = record { status = 404; body = raw (codes "404 page not found") }

module _ (h : Host) (codec : Codec) (shuffle : Dict Container → Dict Container) where
  abbrev pub route_to : Route → Store → Act HttpReply
  route_to to_report s = report h codec shuffle s
  route_to (to_control body) s = control h codec s body
  route_to elsewhere s = pure not_found

  -- A panic of a handler ends its connection only; an exit ends the program.
  abbrev pub go_on : Outcome HttpReply × World → (World → World) → World
  go_on (exits, w) rest = w
  go_on (panics, w) rest = rest w
  go_on (returns reply, w) rest = rest w

  -- `http.Serve`, one request after the other.
  unfoldable pub serve : List Arrival → World → World
  serve [] w = w
  serve (a ∷ later) w = go_on (route_to a.route a.store w) (serve later)
