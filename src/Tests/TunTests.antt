-- ===== src/Tests/TunTests.antt =====
-- Runs of the tunnel's header parser and of its datapath.
use ndn_mobile.Prelude.{
  ℕ, ◌≡◌, refl, arith, true, false, none, some, List, [], ◌∷◌, ◌++◌, replicate,
}
use ndn_mobile.Tun
use ndn_mobile.Tun.{TunConfig}
use ndn_mobile.Tun.Flow.{v4, parse_ip_flow}
use ndn_mobile.Tun.Flow.Headers.{Skipped, v4_header, be_bytes2, parse_ip_flow-v4_header}
use ndn_mobile.Tun.Datapath.Uplink
use ndn_mobile.Tun.Datapath.Uplink.{UplinkEvent, inject, interest, receive, publish}
use ndn_mobile.Tun.Datapath.Uplink.Order.{IsOrdered, accepted, granted, run-IsOrdered}
use ndn_mobile.Tun.Datapath.Downlink
use ndn_mobile.Tun.Datapath.Downlink.{
  DownlinkEvent, subscribed, received, failed, slept, next, cancelled, resumed, pausing, receiving,
  sending,
}
use ndn_mobile.Tun.Datapath.Downlink.Delivery.{
  IsDelivered, arrived, any_end, recovery, run_delivers, run_recovers,
}

credit_floor : (Tun.with_credit (Tun.new {Name = ℕ} 1 2) 0).credit ≡ 1
unfolding Tun.with_credit Tun.new
credit_floor = refl

truncated : parse_ip_flow (0x45 ∷ 0 ∷ []) ≡ none
unfolding parse_ip_flow
truncated = refl

abbrev skipped : Skipped
skipped = record {
  service = 0;
  size = (0, 28);
  ident = (0, 1);
  fragment = (0, 0);
  ttl = 64;
  checksum = (0, 0);
}

-- A UDP packet to port 53 with four bytes of options.
parse_ip_flow-v4_header_example :
    parse_ip_flow (
      (v4_header 6 skipped 17 (1, 2, 3, 4) (5, 6, 7, 8) ++ 1 ∷ 1 ∷ 1 ∷ 1 ∷ [])
      ++ (be_bytes2 5000 ++ be_bytes2 53 ++ 0 ∷ 8 ∷ []))
    ≡ some (record {
      version = 4;
      protocol = 17;
      src = v4 (1 ∷ 2 ∷ 3 ∷ 4 ∷ []);
      dst = v4 (5 ∷ 6 ∷ 7 ∷ 8 ∷ []);
      src_port = 5000;
      dst_port = 53;
    })
parse_ip_flow-v4_header_example =
    parse_ip_flow-v4_header 6 skipped 17 (1, 2, 3, 4) (5, 6, 7, 8) (1 ∷ 1 ∷ 1 ∷ 1 ∷ []) 5000 53
      (0 ∷ 8 ∷ []) (omega arith) refl

-- Names are a prefix with a sequence number, packets are numbers.
abbrev name_of : ℕ × ℕ → ℕ → ℕ × ℕ
name_of (prefix, seq) n = (prefix, n)

abbrev uplink_events : List (UplinkEvent ℕ)
uplink_events =
    inject 70
    ∷ receive
    ∷ interest (some 2)
    ∷ publish true
    ∷ inject 71
    ∷ inject 72
    ∷ receive
    ∷ publish true
    ∷ receive
    ∷ publish true
    ∷ []

-- The third packet waits for more budget.
uplink_run : Uplink.run name_of (7, 0) Uplink.start uplink_events ≡ record {
  queue = [];
  held = some 72;
  budget = 0;
  seq = 2;
  published = ((7, 0), 70) ∷ ((7, 1), 71) ∷ [];
  running = true;
}
unfolding Uplink.run Uplink.step
uplink_run = refl

run-IsOrdered_example :
    IsOrdered name_of
      (7, 0)
      (Uplink.run name_of (7, 0) Uplink.start uplink_events)
      (accepted name_of (7, 0) Uplink.start uplink_events)
      (granted uplink_events)
unfolding Uplink.run Uplink.step
run-IsOrdered_example = run-IsOrdered name_of (7, 0) uplink_events refl

abbrev downlink_events : List (DownlinkEvent ℕ)
downlink_events =
    subscribed true ∷ received (some 80) ∷ received none ∷ received (some 81) ∷ next ∷ failed ∷ []

downlink_run :
    Downlink.run Downlink.start downlink_events
    ≡ record { phase = pausing; queue = 81 ∷ []; written = 80 ∷ []; os_gone = false }
unfolding Downlink.run Downlink.step
downlink_run = refl

run_delivers_example :
    IsDelivered
      (Downlink.run Downlink.start downlink_events)
      (arrived Downlink.start downlink_events)
run_delivers_example = run_delivers downlink_events

-- A packet that finds the channel full is held until the OS side has read one.
abbrev full : Downlink.Downlink ℕ
full = record { phase = receiving; queue = replicate 1024 7; written = []; os_gone = false }

held_packet :
    ((Downlink.run full (received (some 80) ∷ cancelled ∷ [])).phase ≡ sending 80)
    × ((Downlink.run full (received (some 80) ∷ next ∷ resumed ∷ [])).phase ≡ receiving)
unfolding Downlink.run Downlink.step
held_packet = (refl, refl)

run_recovers_example :
    (Downlink.run
      (Downlink.run Downlink.start downlink_events)
      (recovery (Downlink.run Downlink.start downlink_events).phase)).phase
    ≡ receiving
unfolding any_end
run_recovers_example = run_recovers downlink_events refl
