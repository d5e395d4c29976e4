-- ===== src/Traffic/Host.antt =====
-- tc.go: what the code asks of the operating system and of InfluxDB, and the functions that are
-- one question or one command. Each answer may depend on the moment of the question.
use scope_network.Prelude.{
  ℕ, ◌+◌, ◌-◌, List, [], ◌∷◌, ◌++◌, Option, none, some, ltb, length, take, drop, if◌then◌else◌,
  ◌==◌,
}
use scope_network.Text.{Text, codes}
use scope_network.Text.Decimal.{itoa}
use scope_network.Text.Fields.{fields}
use scope_network.Errors.{
  Error, failed_to_execute_command, failed_to_perform_traffic_control, failed_to_read, Result, ok,
  err, Outcome, returns, panics, exits,
}
use scope_network.Docker.{Inspection}
use scope_network.Traffic.Influx.{Response}
use scope_network.Traffic.Act.{Command, Act, pure, lift, ask, if_some, if_err, ◌>>=◌}

-- os.Readlink; whether cni's `WithNetNSPath` enters the namespace; how a command ends there;
-- InfluxDB's client and its answers to a database and a command; the seconds of the clock, and
-- `rand.Intn` after `rand.Seed` with those seconds; `time.Now`; and go-dockerclient's `NewClient`
-- and `InspectContainer`.
pub record Host : Type 0 where
  pub read_link : ℕ → Text → Result Text
  pub enter : ℕ → Text → Option Error
  pub run : ℕ → Command → Option Error
  pub influx_client : ℕ → Option Error
  pub query : ℕ → Text → Text → Result Response
  pub unix : ℕ → ℕ
  pub intn : ℕ → ℕ → ℕ
  pub now : ℕ → ℕ
  pub docker_client : ℕ → Option Error
  pub inspect : ℕ → Text → Inspection

-- `nsID[5 : len(nsID)-1]`, which panics where the first bound is above the second.
unfoldable pub inner : Text → Outcome Text
inner s = if ltb (length s) 6 then panics else returns (take (length s - 1 - 5) (drop 5 s))

unfoldable pub net_ns_path : ℕ → Text
unfolding itoa
net_ns_path pid = codes "/proc/" ++ (itoa pid ++ codes "/ns/net")

module _ (h : Host) where
  -- `random`; `rand.Intn` panics where its argument is not positive.
  unfoldable pub random : ℕ → ℕ → Act ℕ
  unfolding ◌>>=◌
  random low high =
      if high - low == 0
      then lift panics
      else do r ← ask (λ t. h.intn (h.unix t) (high - low)); pure (r + low)

  unfoldable pub get_nsid : Text → Act (Result Text)
  unfolding ◌>>=◌
  get_nsid path = do
    link ← ask (λ t. h.read_link t path)
    if_err link (λ e. pure (err (failed_to_read path e)))
        λ id. do nsid ← lift (inner id); pure (ok nsid)

  -- One command: it is run whatever comes of it.
  abbrev pub run_command : Command → Act (Option Error)
  run_command c w = (
    returns (h.run w.moment c),
    record w { commands = w.commands ++ c ∷ []; moment = w.moment + 1 },
  )

  -- The loop over the commands inside the namespace ends at the first that fails.
  unfoldable pub run_commands : Text → List (List Text) → Act (Option Error)
  unfolding ◌>>=◌
  run_commands ns [] = pure none
  run_commands ns (argv ∷ cmds) =
      let rest = run_commands ns cmds in
      do
        failed ← run_command (record { net_ns = ns; argv = argv })
        if_some failed (λ e. pure (some (failed_to_execute_command e))) rest

  -- `ns.WithNetNSPath` with that loop as its function.
  unfoldable pub with_net_ns_path : Text → List (List Text) → Act (Option Error)
  unfolding ◌>>=◌
  with_net_ns_path ns cmds = do
    refused ← ask (λ t. h.enter t ns)
    if_some refused (λ e. pure (some e)) (run_commands ns cmds)

  -- `queryInfluxDB`: a client that cannot be made ends the program.
  unfoldable pub query_influx_db : Text → Text → Act (Result Response)
  unfolding ◌>>=◌
  query_influx_db db command = do
    refused ← ask h.influx_client
    if_some refused (λ e. lift exits) (ask (λ t. h.query t db command))

-- `strings.Fields` of the two command lines of the file.
unfoldable pub replace_command : List Text
unfolding fields
replace_command = fields (codes "tc qdisc replace dev eth0 root handle 1: netem")

unfoldable pub change_command : List Text
unfolding fields
change_command = fields (codes "tc qdisc change dev eth0 root handle 1: netem")

module _ (h : Host) where
  unfoldable pub apply_traffic_control_rules : ℕ → List Text → Act (Result Text)
  unfolding ◌>>=◌
  apply_traffic_control_rules pid rules = do
    failed ← with_net_ns_path h (net_ns_path pid) (replace_command ∷ (change_command ++ rules) ∷ [])
    if_some failed (λ e. pure (err (failed_to_perform_traffic_control e)))
        (get_nsid h (net_ns_path pid))
