-- ===== src/Lib.antt =====
-- Scope's network-control plugin, the runner of the integration tests, the merger of coverage
-- profiles, and the client of the deployment service.
--
-- The plugin is one process. It follows the Docker daemon and keeps a store of the containers
-- that it has seen; it answers Scope's probe with reports, which show a node for each container
-- that runs or has stopped, and with the effects of controls, which run `tc` inside a
-- container's network namespace and remember the parameters that they have set. The goroutine of
-- the Docker client writes the store while the HTTP handlers read it under the store's mutex.
--
-- The files, each with the code that it is about:
--   Store         store.go: `State`, `Container`, `Store` and its methods; Store/Locking has the
--                 mutex: goroutines that lock, act on the map and unlock, as a step relation.
--   Docker        docker.go: `NewDockerClient`, `Start`, `getContainers`, `handleEvent` and their
--                 helpers. What the daemon answers is an argument, a `Daemon` for each round.
--   Traffic       tc.go and the status type of main.go: Status (`TrafficControlStatus`), Act (the
--                 state of the traffic controls and actions on it), Host (commands, links and
--                 InfluxDB), Influx (`parseAttribute`), Cache (`getStatus`, `getPacketLoss`),
--                 Controls (`ApplyLatency`, `ApplyPacketLoss`, `ClearTrafficControlSettings`).
--   Pods          tc.go: `getPod`, `parsePodName`, `getStatusByPod`, `parseStatus`.
--   Report        report.go: Controls, Nodes, Handlers (`GetHandler`), Raw (`RawReport`).
--   Plugin        main.go: `main`, `NewPlugin`, `setupSocket`, `report`, `control`, `sendResponse`;
--                 Plugin/Life has `main` and the goroutine of `setupSignals` turn by turn, and
--                 Plugin/EndToEnd the Docker client and the reports of one plugin together.
--   Runner        tools/runner/runner.go: `getTests`, `pick`, the order of the tests and the exit
--                 status; Runner/Parallel has the loop of `parallel` as steps; Runner/Run has `run`,
--                 `updateScheduler`, `summary` and `sequential` with the console and the records
--                 of the scheduler; Runner/Schedule has `getSchedule` and `main`;
--                 Runner/Console has the goroutines of `parallel` at the console and its lock.
--   Cover         tools/cover/cover.go: `merge`, and the loop of `main` over its inputs;
--                 Cover/Print has its sort and its print.
--   Wcloud        tools/cmd/wcloud: client.go and types.go; cli.go is Wcloud/Cli (`deploy`,
--                 `config`, `logs`), Wcloud/History (`list`, `events`) and Wcloud/Main (`main` and
--                 the environment). Wcloud/Flags reads flags as the package flag does.
--   Prelude, Text, Dict, Errors
--                 what these share: numbers and lists, Go's strings with the functions of the
--                 packages strings and strconv and ParseDuration (Text/Duration), maps, errors.
--   Tests         the theorems at concrete values.
-- The other modules hold proofs and are named for what they prove.
--
-- Conventions. A string is its list of bytes. A map is an association list without double keys,
-- and a `range` over it takes any order that visits each entry once. A nil map or pointer is a
-- `none`. An error that the program makes is a constructor of `Error` with the values that its
-- text shows. A call that can panic or end the process returns an `Outcome`; what was done
-- before stays done. Each question to the outside (links, namespaces, commands, InfluxDB, the
-- clock and random numbers) is answered by a `Host`, and the answer may depend on the moment,
-- which counts the questions. The JSON codec is an argument of the handlers.
--
-- Bounds. Process ids and clock seconds are natural numbers. `itoa` has a round for each unit of
-- the number, which is more than its digits; `ParseInt` keeps the range of 64 bits. Every other
-- loop is structural. The loop of `parallel` is a relation, and its end is a theorem. Durations
-- keep the bound of an `int64` of nanoseconds.
--
-- Not modelled: log lines; the pause of a second in `Start`; the bytes of the runner's console
-- lines, which are values with what the lines show, and of the table that `list` prints; the
-- child processes, whose ends are arguments; `-parallel` within a whole run of the runner, since
-- its loop is a relation; the vendored packages, which are arguments where the code relies on
-- them. ParseDuration multiplies a fraction in `float64`: that product is an argument.
pub mod Prelude
pub mod Text
pub mod Dict
pub mod Errors
pub mod Store
pub mod Docker
pub mod Traffic
pub mod Pods
pub mod Report
pub mod Plugin
pub mod Runner
pub mod Cover
pub mod Wcloud
pub mod Tests
