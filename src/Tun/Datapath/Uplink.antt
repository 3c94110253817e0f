-- ===== src/Tun/Datapath/Uplink.antt =====
-- The uplink of crates/ndn-mobile/src/tun.rs: packets of the OS published against a budget.
pub mod Order
use package.ndn_mobile.Prelude.{
  ℕ, suc, zero, ◌+◌, ◌-◌, ◌%◌, ◌^◌, Bool, true, false, ◌&&◌, Option, none, some,
}
use package.ndn_mobile.Prelude.{List, [], ◌∷◌, ◌++◌, ltb, if◌then◌else◌, length}

abbrev pub tun_queue_cap : ℕ
tun_queue_cap = 1024

-- `u64`.
abbrev pub seq_mod : ℕ
seq_mod = 2 ^ 64

pub record Uplink (Name : Type 0) (Packet : Type 0) : Type 0 where
  -- The channel from the OS side.
  pub queue : List Packet
  -- The packet that the streamer has received and not yet published.
  pub held : Option Packet
  pub budget : ℕ
  pub seq : ℕ
  pub published : List (Name × Packet)
  -- The streamer has not left its loop.
  pub running : Bool

pub data InjectResult : Type 0 where
  sent full tun_closed : InjectResult

-- What the tasks meet: a packet of the OS, an Interest with the budget of its subscription request,
-- a turn of the streamer at its channel, a turn at the semaphore with the outcome of `publish`, and
-- cancellation.
pub data UplinkEvent (Packet : Type 0) : Type 0 where
  inject : Packet → UplinkEvent Packet
  interest : Option ℕ → UplinkEvent Packet
  receive : UplinkEvent Packet
  publish : Bool → UplinkEvent Packet
  cancelled : UplinkEvent Packet

module _ {Name : Type 0} {Packet : Type 0} where
  abbrev pub start : Uplink Name Packet
  start = record { queue = []; held = none; budget = 0; seq = 0; published = []; running = true }

module _ {Name : Type 0} {Packet : Type 0} (append_segment : Name → ℕ → Name)
    (self_prefix : Name) where
  -- `TunHandle::inject`. The send waits while the channel is full.
  unfoldable pub send : Uplink Name Packet → Packet → Uplink Name Packet × InjectResult
  send u ip =
      if u.running
      then if ltb (length u.queue) tun_queue_cap
        then (record u { queue = u.queue ++ (ip ∷ []) }, sent)
        else (u, full)
      else (u, tun_closed)

  -- The serve loop's handler.
  unfoldable pub grant : Uplink Name Packet → Option ℕ → Uplink Name Packet
  grant u none = record u { budget = u.budget + 1 }
  grant u (some max_data_count) = record u { budget = u.budget + max_data_count }

  -- `inject_rx.recv()`: only when no packet is held.
  take_next : Option Packet → List Packet → Uplink Name Packet → Uplink Name Packet
  take_next none (ip ∷ queue) u = record u { queue = queue; held = some ip }
  take_next none [] u = u
  take_next (some ip) queue u = u

  -- `budget.acquire()`, `permit.forget()`, and the Data for the held packet.
  stream : Option Packet → ℕ → Bool → Uplink Name Packet → Uplink Name Packet
  stream none budget accepted u = u
  stream (some ip) zero accepted u = u
  stream (some ip) (suc budget) accepted u =
      let name = append_segment self_prefix u.seq in
      let used = record u { held = none; budget = budget; seq = (u.seq + 1) % seq_mod } in
      if accepted
      then record used { published = u.published ++ ((name, ip) ∷ []) }
      else record used { running = false }

  unfoldable pub step : Uplink Name Packet → UplinkEvent Packet → Uplink Name Packet
  unfolding send grant take_next stream
  step u (inject ip) = (send u ip).0
  step u (interest request) = grant u request
  step u receive = if u.running then take_next u.held u.queue u else u
  step u (publish accepted) = if u.running then stream u.held u.budget accepted u else u
  step u cancelled = record u { running = false }

  unfoldable pub run : Uplink Name Packet → List (UplinkEvent Packet) → Uplink Name Packet
  run u [] = u
  run u (e ∷ es) = run (step u e) es
