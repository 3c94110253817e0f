-- ===== src/Offer/Content.antt =====
-- The content stream of crates/ndn-boltffi/src/offer.rs: what `serve_content_stream` installs, the
-- serve handler and the streamer, over the budget that they share. A demand's permits are never
-- taken back, and no one closes the budget.
pub mod Order
use ndn_mobile.Prelude.{
  ℕ, zero, suc, ◌+◌, ◌-◌, ◌≤◌, Bool, true, false, leb, if◌then◌else◌, Option, none, some, List, [],
  ◌∷◌, ◌++◌, max,
}
use ndn_mobile.Offer.{Library}

module _ (lib : Library) where
  open lib use {Name, Wire, Prepared}

  pub record Stream : Type 0 where
    pub prepared : Prepared
    pub budget : ℕ
    pub seg : ℕ
    pub stopped : Bool
    -- What went out on the connection, oldest first.
    pub sent : List Wire

  unfoldable pub start : Prepared → Stream
  start prepared = record { prepared = prepared; budget = 0; seg = 0; stopped = false; sent = [] }

  -- What an Interest under the content prefix asks for: a subscription with its `max_data_count`, or
  -- the Data of its name.
  pub data Request : Type 0 where
    subscription : (max_data_count : ℕ) → Request
    plain : Name → Request

  -- The handler: the stream, and the response to the Interest.
  unfoldable pub handle : Request → Stream → Stream × Option Wire
  handle (subscription max_data_count) s =
      (record s { budget = s.budget + max max_data_count 1 }, none)
  handle (plain name) s = (s, lib.answer_interest s.prepared name none)

  -- With a permit taken: `send` says whether the connection takes a wire.
  unfoldable pub publish : Bool → Option Wire → Stream → Stream
  publish send none s = record s { stopped = true }
  publish false (some wire) s = record s { stopped = true }
  publish true (some wire) s = record s { sent = s.sent ++ wire ∷ []; seg = suc s.seg }

  unfoldable pub segment : Prepared → ℕ → Option Wire
  segment prepared seg =
      lib.answer_interest prepared (lib.append_segment (lib.versioned_name prepared) seg) none

  unfoldable pub acquire : Bool → ℕ → Stream → Stream
  acquire send zero s = s
  acquire send (suc rest) s = publish send (segment s.prepared s.seg) (record s { budget = rest })

  -- One round of the streamer, which waits where there is no permit.
  unfoldable pub turn : Bool → Stream → Stream
  turn send s =
      if s.stopped
      then s
      else if leb s.seg (lib.last_seg s.prepared)
      then acquire send s.budget s
      else s

  pub data Event : Type 0 where
    interest : Request → Event
    round : (send : Bool) → Event

  unfoldable pub step : Event → Stream → Stream
  step (interest r) s = (handle r s).0
  step (round send) s = turn send s

  abbrev pub run : List Event → Stream → Stream
  run [] s = s
  run (e ∷ es) s = run es (step e s)

  abbrev pub rounds : ℕ → Stream → Stream
  rounds zero s = s
  rounds (suc n) s = rounds n (turn true s)
