-- ===== src/Tun/Datapath/Downlink.antt =====
-- The downlink of crates/ndn-mobile/src/tun.rs: one persistent subscription, taken up again after
-- every error, whose Data go to the OS side in the order of arrival.
pub mod Delivery
use package.ndn_mobile.Prelude.{
  ℕ, Bool, true, false, Option, none, some, List, [], ◌∷◌, ◌++◌, ltb, if◌then◌else◌, length,
}
use package.ndn_mobile.Tun.Datapath.Uplink.{tun_queue_cap}

-- Where the task waits: at `subscribe`, at `recv`, at `send` with the packet that it has received, in
-- the pause of 200 ms after an error; or it has left its loop.
pub data Phase (Packet : Type 0) : Type 0 where
  subscribing : Phase Packet
  receiving : Phase Packet
  sending : Packet → Phase Packet
  pausing : Phase Packet
  stopped : Phase Packet

pub record Downlink (Packet : Type 0) : Type 0 where
  pub phase : Phase Packet
  -- The channel to the OS side, and what it has handed out.
  pub queue : List Packet
  pub written : List Packet
  -- The OS side has dropped its end.
  pub os_gone : Bool

-- The outcome of `subscribe` and of `recv` (a Data with or without content, or an error), a wake-up at
-- `send`, the end of the pause, the cancellation where the task looks for it; and on the OS side a
-- call of `TunHandle::next` and its end.
pub data DownlinkEvent (Packet : Type 0) : Type 0 where
  subscribed : Bool → DownlinkEvent Packet
  received : Option Packet → DownlinkEvent Packet
  failed : DownlinkEvent Packet
  resumed : DownlinkEvent Packet
  slept : DownlinkEvent Packet
  cancelled : DownlinkEvent Packet
  next : DownlinkEvent Packet
  dropped : DownlinkEvent Packet

module _ {Packet : Type 0} where
  abbrev pub start : Downlink Packet
  start = record { phase = subscribing; queue = []; written = []; os_gone = false }

  -- `deliver_tx.send`: it fails when the OS side is gone, and waits while the channel is full.
  deliver : Packet → Downlink Packet → Downlink Packet
  deliver ip d =
      if d.os_gone
      then record d { phase = stopped }
      else if ltb (length d.queue) tun_queue_cap
      then record d { phase = receiving; queue = d.queue ++ (ip ∷ []) }
      else record d { phase = sending ip }

  -- One step of the task, by where it waits; an event for which it does not wait is not met. At
  -- `send` it does not look for the cancellation.
  dispatch : Phase Packet → DownlinkEvent Packet → Downlink Packet → Downlink Packet
  unfolding deliver
  dispatch stopped e d = d
  dispatch (sending ip) resumed d = deliver ip d
  dispatch (sending ip) e d = d
  dispatch phase cancelled d = record d { phase = stopped }
  dispatch subscribing (subscribed true) d = record d { phase = receiving }
  dispatch subscribing (subscribed false) d = record d { phase = pausing }
  dispatch receiving (received none) d = d
  dispatch receiving (received (some ip)) d = deliver ip d
  dispatch receiving failed d = record d { phase = pausing }
  dispatch pausing slept d = record d { phase = subscribing }
  dispatch phase e d = d

  -- `TunHandle::next`.
  take_next : List Packet → Downlink Packet → Downlink Packet × Option Packet
  take_next [] d = (d, none)
  take_next (ip ∷ queue) d = (record d { queue = queue; written = d.written ++ (ip ∷ []) }, some ip)

  unfoldable pub step : Downlink Packet → DownlinkEvent Packet → Downlink Packet
  unfolding dispatch take_next
  step d next = (take_next d.queue d).0
  step d dropped = record d { os_gone = true }
  step d e = dispatch d.phase e d

  unfoldable pub run : Downlink Packet → List (DownlinkEvent Packet) → Downlink Packet
  run d [] = d
  run d (e ∷ es) = run (step d e) es
