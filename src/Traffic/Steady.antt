-- ===== src/Traffic/Steady.antt =====
-- tc.go where the operating system plays along: the namespace keeps its link, is entered, and every
-- command succeeds.
use scope_network.Prelude.{
  ℕ, ◌+◌, ◌-◌, ◌<◌, List, [], ◌∷◌, ◌++◌, append_assoc, ◌≡◌, ap, none, some, arith, length,
  length-append, false, ltb,
}
use scope_network.Text.{Text, codes}
use scope_network.Text.Affix.{take-append}
use scope_network.Text.Decimal.{itoa}
use scope_network.Dict
use scope_network.Dict.{Dict}
use scope_network.Errors.{ok, returns}
use scope_network.Traffic.Status.{TrafficControlStatus}
use scope_network.Traffic.Act.{Command, World}
use scope_network.Traffic.Host.{
  Host, inner, random, get_nsid, run_commands, with_net_ns_path, net_ns_path, replace_command,
  change_command, apply_traffic_control_rules,
}
use scope_network.Traffic.Cache.{get_status, get_packet_loss}
use scope_network.Traffic.Frame.{with_status, update_cache-some}
use scope_network.Traffic.Controls.{
  apply_latency, apply_packet_loss, latency_rules, loss_rules, delay_rules,
}

-- What the kernel's link of a network namespace reads, for an inode number in decimal.
abbrev pub link_text : Text → Text
link_text id = codes "net:[" ++ (id ++ codes "]")

inner_size : (id : Text) → length (link_text id) - 1 - 5 ≡ length id
inner_size id = omega (arith, length-append id (codes "]"))

inner_long : (id : Text) → ltb (length (link_text id)) 6 ≡ false
inner_long id = ground (arith, length-append id (codes "]"))

pub inner-link_text : (id : Text) → inner (link_text id) ≡ returns id
unfolding inner
inner-link_text id = rw (inner_long id, inner_size id) (ap returns (take-append id (codes "]")))

-- The identifier of a namespace is read from the link: what stands between the brackets.
pub get_nsid-link_text :
    (h : Host) (path id : Text) (w : World)
    → h.read_link w.moment path ≡ ok (link_text id)
    → get_nsid h path w ≡ (returns (ok id), record w { moment = w.moment + 1 })
unfolding get_nsid
get_nsid-link_text h path id w e = rw (e, inner-link_text id)

-- The commands of a control, in the namespace of a process.
abbrev pub ran : ℕ → List Text → List Command
ran pid rules =
    record { net_ns = net_ns_path pid; argv = replace_command }
    ∷ record { net_ns = net_ns_path pid; argv = change_command ++ rules }
    ∷ []

module _ (h : Host) (pid : ℕ) (id : Text) where
  pub record IsSteady : Type 0 where
    pub link : (t : ℕ) → h.read_link t (net_ns_path pid) ≡ ok (link_text id)
    pub enters : (t : ℕ) → h.enter t (net_ns_path pid) ≡ none
    pub runs : (t : ℕ) (c : Command) → h.run t c ≡ none

  abbrev pub after_rules : List Text → World → World
  after_rules rules w = record w {
    commands = w.commands ++ ran pid rules;
    moment = w.moment + 1 + 1 + 1 + 1;
  }

  module _ (steady : IsSteady) where
    apply_steady :
        (rules : List Text) (w : World)
        → apply_traffic_control_rules h pid rules w ≡ (returns (ok id), after_rules rules w)
    unfolding apply_traffic_control_rules with_net_ns_path run_commands
    apply_steady rules w =
        simp (steady.enters, steady.runs, append_assoc)
          (get_nsid-link_text h (net_ns_path pid) id _ (steady.link _))

    random_steady :
        (low high : ℕ) (w : World)
        → low < high
        → random h low high w ≡ (
          returns (h.intn (h.unix w.moment) (high - low) + low),
          record w { moment = w.moment + 1 },
        )
    unfolding random
    random_steady low high w e = ground arith

    get_packet_loss_steady :
        (s : TrafficControlStatus) (loss : Text) (m : Dict TrafficControlStatus) (w : World)
        → w.cache ≡ some m
        → Dict.lookup id m ≡ some s
        → s.packet_loss ≡ loss
        → get_packet_loss h pid w ≡ (returns (ok loss), record w { moment = w.moment + 1 })
    unfolding get_packet_loss get_status
    get_packet_loss_steady s loss m w e hit known =
        rw (get_nsid-link_text h (net_ns_path pid) id w (steady.link _)) (ground (arith, e, hit))

    -- A latency control on a namespace whose status is cached: both commands are run, the second
    -- with the delay and the cached loss, and the delay is cached.
    pub apply_latency_steady :
        (c : ℕ) (latency loss : Text) (s : TrafficControlStatus) (m : Dict TrafficControlStatus)
        (w : World)
        → w.cache ≡ some m
        → Dict.lookup id m ≡ some s
        → s.packet_loss ≡ loss
        → apply_latency h pid (c ∷ latency) w ≡ (
          returns (ok tt),
          record w {
            cache = some (with_status id (c ∷ latency) loss m);
            commands = w.commands ++ ran pid (latency_rules (c ∷ latency) loss);
            moment = w.moment + 1 + 1 + 1 + 1 + 1;
          },
        )
    unfolding apply_latency
    apply_latency_steady c latency loss s m w e hit known =
        let rules = latency_rules (c ∷ latency) loss in
        let w₁ : World = record w { moment = w.moment + 1 } in
        let w₂ : World = after_rules rules w₁ in
        rw (
          get_packet_loss_steady s loss m w e hit known,
          apply_steady rules w₁,
          update_cache-some id (c ∷ latency) loss m w₂ e,
        )

    -- The delay that the packet-loss control chooses.
    abbrev pub chosen : World → ℕ
    chosen w = h.intn (h.unix w.moment) 33300 + 700

    pub apply_packet_loss_steady :
        (c : ℕ) (loss : Text) (m : Dict TrafficControlStatus) (w : World)
        → w.cache ≡ some m
        → apply_packet_loss h pid (c ∷ loss) w ≡ (
          returns (ok tt),
          record w {
            cache = some (with_status id (itoa (chosen w)) (c ∷ loss) m);
            commands =
                w.commands ++ ran pid (loss_rules (c ∷ loss) ++ delay_rules (itoa (chosen w)));
            moment = w.moment + 1 + 1 + 1 + 1 + 1;
          },
        )
    unfolding apply_packet_loss
    apply_packet_loss_steady c loss m w e =
        let rules = loss_rules (c ∷ loss) ++ delay_rules (itoa (chosen w)) in
        let w₁ : World = record w { moment = w.moment + 1 } in
        let w₂ : World = after_rules rules w₁ in
        rw (
          random_steady 700 34000 w (omega arith),
          apply_steady rules w₁,
          update_cache-some id (itoa (chosen w)) (c ∷ loss) m w₂ e,
        )
