-- ===== src/Traffic/Cache.antt =====
-- tc.go: the status cache, read by `getStatus` and written by it and by the controls.
use scope_network.Prelude.{ℕ, Option, none, some}
use scope_network.Text.{Text, codes}
use scope_network.Dict
use scope_network.Dict.{Dict}
use scope_network.Errors.{
  failed_to_get_namespace_id, failed_to_get_data, status_does_not_exist, Result, ok, err, returns,
  panics,
}
use scope_network.Traffic.Status.{TrafficControlStatus, set_latency, set_packet_loss, init}
use scope_network.Traffic.Influx.{Response, Attributes, parse_attribute}
use scope_network.Traffic.Act.{Act, pure, lift, if_err, ◌>>=◌, ◌>>◌}
use scope_network.Traffic.Host.{Host, net_ns_path, get_nsid, query_influx_db}

-- A read of a nil map finds nothing.
abbrev pub cached : Text → Option (Dict TrafficControlStatus) → Option TrafficControlStatus
cached id none = none
cached id (some m) = Dict.lookup id m

-- A write to a nil map panics.
abbrev write_map : Text → TrafficControlStatus → Option (Dict TrafficControlStatus) → Act (Unit {0})
write_map id s none w = (panics, w)
write_map id s (some m) w = (returns tt, record w { cache = some (Dict.insert id s m) })

unfoldable pub write_cache : Text → TrafficControlStatus → Act (Unit {0})
write_cache id s w = write_map id s w.cache w

-- A delete in a nil map does nothing.
abbrev pub erase_map :
    Text → Option (Dict TrafficControlStatus) → Option (Dict TrafficControlStatus)
erase_map id none = none
erase_map id (some m) = some (Dict.erase id m)

unfoldable pub delete_cache : Text → Act (Unit {0})
delete_cache id w = (returns tt, record w { cache = erase_map id w.cache })

abbrev pub response_of : Result Response → Option Response
response_of (ok r) = some r
response_of (err e) = none

-- The database and the query of `getStatus`.
abbrev pub db : Text
db = codes "ican"

abbrev pub status_query : Text
status_query = codes "select * from p2ptxbyte, p2ptxpkt"

abbrev pub status_of : Attributes → TrafficControlStatus
status_of a = record { dpod = a.pod; latency = a.bandwidth; packet_loss = a.packet }

-- The setters act on the status that the map points to; one that is missing is made first.
abbrev pub init_if_nil : Option TrafficControlStatus → TrafficControlStatus
init_if_nil none = init
init_if_nil (some s) = s

-- The end of `ApplyLatency` and of `ApplyPacketLoss`.
abbrev pub update_map : Text → Text → Text → Option (Dict TrafficControlStatus) → Act (Unit {0})
update_map id latency loss none w = (panics, w)
update_map id latency loss (some m) w = (
  returns tt,
  record w {
    cache = some (
        Dict.insert id (set_packet_loss loss (set_latency latency (init_if_nil (Dict.lookup id m))))
          m);
  },
)

unfoldable pub update_cache : Text → Text → Text → Act (Unit {0})
update_cache id latency loss w = update_map id latency loss w.cache w

module _ (h : Host) where
  -- The miss of `getStatus`: the response is parsed before its error is looked at.
  unfoldable pub fetch_status : Text → Act (Result (Option TrafficControlStatus))
  unfolding ◌>>=◌
  fetch_status id = do
    res ← query_influx_db h db status_query
    attributes ← lift (parse_attribute (response_of res))
    if_err res (λ e. pure (err (failed_to_get_data e)))
        λ r. do write_cache id (status_of attributes); pure (ok (some (status_of attributes)))

  abbrev pub found_or_fetch :
      Text → Option TrafficControlStatus → Act (Result (Option TrafficControlStatus))
  found_or_fetch id (some s) = pure (ok (some s))
  found_or_fetch id none = fetch_status id

  -- A pointer to a status, and an error.
  unfoldable pub get_status : ℕ → Act (Result (Option TrafficControlStatus))
  unfolding ◌>>=◌
  get_status pid = do
    nsid ← get_nsid h (net_ns_path pid)
    if_err nsid (λ e. pure (err (failed_to_get_namespace_id e)))
        λ id w. found_or_fetch id (cached id w.cache) w

  abbrev pub loss_of : ℕ → Option TrafficControlStatus → Result Text
  loss_of pid none = err (status_does_not_exist pid)
  loss_of pid (some s) = ok s.packet_loss

  unfoldable pub get_packet_loss : ℕ → Act (Result Text)
  unfolding ◌>>=◌
  get_packet_loss pid = do
    status ← get_status pid
    if_err status (λ e. pure (err e)) λ s. pure (loss_of pid s)
