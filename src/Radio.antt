-- ===== src/Radio.antt =====
-- The receive side of the Wi-Fi Aware seam: crates/ndn-boltffi/src/wifi_aware.rs.
pub mod Ble
pub mod Buffers
use ndn_mobile.Prelude.{
  ℕ, Bool, true, false, ◌==◌, ltb, leb, if◌then◌else◌, Option, none, some, List, [], ◌∷◌, ◌++◌,
  length, drop,
}
use ndn_mobile.Text.{Text}
use ndn_mobile.Text.Print.{ℤ, pos, negsuc}

abbrev pub match_buffer_cap : ℕ
match_buffer_cap = 64

-- `FOLLOWUP_QUEUE_CAP`, which `SCAN_QUEUE_CAP` of the BLE seam is too.
abbrev pub queue_cap : ℕ
queue_cap = 256

-- `FollowupFrame`: the frame, the sender's address and the signal.
pub record Frame : Type 0 where
  pub frame : List ℕ
  pub peer : Option (List ℕ)
  pub rssi_dbm : Option ℤ

-- `<[u8; 6]>::try_from(bytes).ok()`.
unfoldable pub address : List ℕ → Option (List ℕ)
address bytes = if length bytes == 6 then some bytes else none

-- `i8::try_from(rssi).ok().filter(|&r| r != 0)`.
unfoldable pub signal : ℤ → Option ℤ
signal (pos n) = if n == 0 then none else if ltb n 128 then some (pos n) else none
signal (negsuc n) = if ltb n 128 then some (negsuc n) else none

pub record Seam : Type 0 where
  pub queue : List Frame
  pub matches : List (Text × List ℕ)

abbrev pub make_seam : Seam
make_seam = record { queue = []; matches = [] }

unfoldable pub try_send : {A : Type 0} → A → List A → List A
try_send f q = if ltb (length q) queue_cap then q ++ f ∷ [] else q

unfoldable pub deliver_followup : List ℕ → List ℕ → ℤ → Seam → Seam
deliver_followup frame peer rssi s = record s {
  queue = try_send (record { frame = frame; peer = address peer; rssi_dbm = signal rssi }) s.queue;
}

unfoldable pub push_match : Text → Option (List ℕ) → Seam → Seam
push_match service none s = s
push_match service (some peer) s =
    let matches = if leb match_buffer_cap (length s.matches) then drop 1 s.matches else s.matches in
    record s { matches = matches ++ (service, peer) ∷ [] }

unfoldable pub on_match : Text → List ℕ → Seam → Seam
on_match service peer s = push_match service (address peer) s

-- What the face reads: the next frame, where there is one, and all matches.
unfoldable pub pop : List Frame → Seam → Option Frame × Seam
pop [] s = (none, s)
pop (f ∷ q) s = (some f, record s { queue = q })

unfoldable pub next_followup : Seam → Option Frame × Seam
next_followup s = pop s.queue s

unfoldable pub drain_matches : Seam → List (Text × List ℕ) × Seam
drain_matches s = (s.matches, record s { matches = [] })

pub data Event : Type 0 where
  followup : (frame peer : List ℕ) → (rssi : ℤ) → Event
  matched : (service : Text) → (peer : List ℕ) → Event
  next : Event
  drain : Event

unfoldable pub step : Event → Seam → Seam
step (followup frame peer rssi) s = deliver_followup frame peer rssi s
step (matched service peer) s = on_match service peer s
step next s = (next_followup s).1
step drain s = (drain_matches s).1

abbrev pub run : List Event → Seam → Seam
run [] s = s
run (e ∷ es) s = run es (step e s)
