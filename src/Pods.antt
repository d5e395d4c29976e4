-- ===== src/Pods.antt =====
-- tc.go: the pod of a container, and the status that the report shows of a pod.
pub mod Names
use scope_network.Prelude.{ℕ, List, [], ◌∷◌, Option, none, some, ltb, length, if◌then◌else◌}
use scope_network.Text.{Text, codes, same}
use scope_network.Text.Affix.{trim_prefix}
use scope_network.Text.Split.{split}
use scope_network.Text.Decimal.{itoa}
use scope_network.Errors.{
  Error, failed_to_parse_name, less_parts_than_expected, Result, ok, err, Outcome, returns, panics,
}
use scope_network.Docker.{DockerContainer, Inspection, known, no_such_container, failed}
use scope_network.Traffic.Act.{Act, pure, lift, ask, if_some, ◌>>=◌, ◌>>◌}
use scope_network.Traffic.Host.{Host, random}

-- The third part of the name, where there are at least six and the first is the prefix. The second
-- part is split only for the log.
abbrev pod_part : Text → List Text → Result Text
pod_part name (prefix ∷ container ∷ pod ∷ rest) =
    if same prefix (codes "k8s")
    then (if ltb (length rest) 3
        then err (less_parts_than_expected name (prefix ∷ container ∷ pod ∷ rest))
        else ok pod)
    else err (failed_to_parse_name name)
pod_part name (prefix ∷ rest) =
    if same prefix (codes "k8s")
    then err (less_parts_than_expected name (prefix ∷ rest))
    else err (failed_to_parse_name name)
pod_part name [] = err (failed_to_parse_name name)

unfoldable pub parse_pod_name : Text → Result Text
parse_pod_name name =
    let trimmed = trim_prefix name (codes "/") in pod_part trimmed (split trimmed b'_')

abbrev pod_or_empty : Result Text → Text
pod_or_empty (ok pod) = pod
pod_or_empty (err e) = []

-- A failed look-up leaves a nil container, whose name is then read.
abbrev name_of : Inspection → Outcome Text
name_of (known c) = returns c.name
name_of no_such_container = panics
name_of (failed e) = panics

pub record NetworkControlStatus : Type 0 where
  pub spod : Text
  pub dpod : Text
  pub bandwidth : Text
  pub packet : Text
  pub latency : Text

module _ (h : Host) where
  -- The errors are made and dropped; a nil client panics at its first use.
  unfoldable pub get_pod : Text → Act (Result Text)
  unfolding ◌>>=◌
  get_pod id = do
    refused ← ask h.docker_client
    if_some refused (λ e. lift panics)
        do
          found ← ask (λ t. h.inspect t id)
          name ← lift (name_of found)
          pure (ok (pod_or_empty (parse_pod_name name)))

  -- No query is made: the numbers are drawn at random.
  unfoldable pub get_status_by_pod : Text → Act (Result (Option NetworkControlStatus))
  unfolding random ◌>>=◌
  get_status_by_pod dpod = do
    bandwidth ← random h 700 34000
    latency ← random h 140 230
    packet ← random h 5 80
    pure (
        ok (
          some (record {
            spod = [];
            dpod = dpod;
            bandwidth = itoa bandwidth;
            packet = itoa packet;
            latency = itoa latency;
          })))

  -- `parseStatus`, which nothing calls.
  unfoldable pub parse_status : Act NetworkControlStatus
  unfolding random ◌>>=◌
  parse_status = do
    bandwidth ← random h 700 34000
    latency ← random h 140 230
    packet ← random h 5 80
    pure (record {
      spod = [];
      dpod = codes "dpod";
      bandwidth = itoa bandwidth;
      packet = itoa packet;
      latency = itoa latency;
    })
