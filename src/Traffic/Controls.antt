-- ===== src/Traffic/Controls.antt =====
-- tc.go: the three controls, `ApplyLatency`, `ApplyPacketLoss` and `ClearTrafficControlSettings`.
use scope_network.Prelude.{ℕ, List, [], ◌∷◌, ◌++◌, if◌then◌else◌}
use scope_network.Text.{Text, codes, same}
use scope_network.Text.Decimal.{itoa}
use scope_network.Text.Fields.{fields}
use scope_network.Errors.{
  failed_to_get_namespace_id, failed_to_perform_traffic_control, Result, ok, err,
}
use scope_network.Traffic.Act.{Act, pure, if_some, if_err, ◌>>=◌, ◌>>◌}
use scope_network.Traffic.Host.{
  Host, random, net_ns_path, get_nsid, with_net_ns_path, replace_command,
  apply_traffic_control_rules,
}
use scope_network.Traffic.Cache.{update_cache, delete_cache, get_packet_loss}

-- `strings.Fields(fmt.Sprintf("delay %s", latency))`, and the same for a loss.
unfoldable pub delay_rules : Text → List Text
unfolding fields
delay_rules latency = fields (codes "delay " ++ latency)

unfoldable pub loss_rules : Text → List Text
unfolding fields
loss_rules loss = fields (codes "loss " ++ loss)

-- The results of `applyTrafficControlRules` with its error dropped.
abbrev pub nsid_or_empty : Result Text → Text
nsid_or_empty (ok id) = id
nsid_or_empty (err e) = []

-- The delay, and the cached loss if there is one.
unfoldable pub latency_rules : Text → Text → List Text
unfolding delay_rules loss_rules same
latency_rules latency loss =
    if same loss (codes "-") then delay_rules latency else delay_rules latency ++ loss_rules loss

module _ (h : Host) where
  unfoldable pub apply_latency : ℕ → Text → Act (Result (Unit {0}))
  unfolding ◌>>=◌
  apply_latency pid [] = pure (ok tt)
  apply_latency pid (c ∷ latency) = do
    loss ← get_packet_loss h pid
    if_err loss (λ e. pure (err e))
        λ packet_loss. do
          nsid ← apply_traffic_control_rules h pid (latency_rules (c ∷ latency) packet_loss)
          update_cache (nsid_or_empty nsid) (c ∷ latency) packet_loss
          pure (ok tt)

  unfoldable pub apply_packet_loss : ℕ → Text → Act (Result (Unit {0}))
  unfolding ◌>>=◌
  apply_packet_loss pid [] = pure (ok tt)
  apply_packet_loss pid (c ∷ loss) = do
    number ← random h 700 34000
    nsid ← apply_traffic_control_rules h pid (loss_rules (c ∷ loss) ++ delay_rules (itoa number))
    update_cache (nsid_or_empty nsid) (itoa number) (c ∷ loss)
    pure (ok tt)

  unfoldable pub clear_traffic_control_settings : ℕ → Act (Result (Unit {0}))
  unfolding ◌>>=◌
  clear_traffic_control_settings pid = do
    failed ← with_net_ns_path h (net_ns_path pid) (replace_command ∷ [])
    if_some failed (λ e. pure (err (failed_to_perform_traffic_control e)))
        do
          nsid ← get_nsid h (net_ns_path pid)
          if_err nsid (λ e. pure (err (failed_to_get_namespace_id e)))
              λ id. do delete_cache id; pure (ok tt)
