-- ===== src/Traffic/Dropped.antt =====
-- tc.go: `ApplyLatency` and `ApplyPacketLoss` drop the error of `applyTrafficControlRules`.
use scope_network.Prelude.{ℕ, [], ◌∷◌, ◌≡◌, ◌≢◌, arith}
use scope_network.Text.{Text}
use scope_network.Dict.{Dict}
use scope_network.Errors.{Error, err, returns}
use scope_network.Traffic.Act.{World}
use scope_network.Traffic.Host.{Host}
use scope_network.Traffic.Cache.{get_packet_loss}
use scope_network.Traffic.Controls.{apply_latency, apply_packet_loss}

module _ (h : Host) where
  -- `ApplyPacketLoss` never returns an error, whatever fails.
  pub apply_packet_loss-ne-err :
      (pid : ℕ) (loss : Text) (w : World) (e : Error)
      → (apply_packet_loss h pid loss w).0 ≢ returns (err e)
  unfolding apply_packet_loss
  apply_packet_loss-ne-err pid [] w e = cc
  apply_packet_loss-ne-err pid (c ∷ loss) w e = ground arith

  -- `ApplyLatency` returns an error only where the cached status could not be had: never because
  -- of the commands.
  apply_latency-err :
      (pid : ℕ) (latency : Text) (w : World) (e : Error)
      → (apply_latency h pid latency w).0 ≡ returns (err e)
      → (get_packet_loss h pid w).0 ≡ returns (err e)
  unfolding apply_latency
  apply_latency-err pid [] w e x = cc
  apply_latency-err pid (c ∷ latency) w e x = ground arith
