-- ===== src/Radio/Ble.antt =====
-- The receive side of the BLE seam: crates/ndn-boltffi/src/ble.rs.
pub mod Order
use ndn_mobile.Prelude.{Option, none, some, List, [], ◌∷◌, ℕ}
use ndn_mobile.Text.Print.{ℤ}
use ndn_mobile.Radio.{address, signal, try_send}

pub record ScannedFrame : Type 0 where
  pub frame : List ℕ
  pub addr : Option (List ℕ)
  pub rssi_dbm : Option ℤ

-- The channel that the seam sends to and the backend reads from.
pub record BleSeam : Type 0 where
  pub queue : List ScannedFrame

unfoldable pub make_seam : BleSeam
make_seam = record { queue = [] }

unfoldable pub scanned : List ℕ → List ℕ → ℤ → ScannedFrame
scanned frame addr rssi = record { frame = frame; addr = address addr; rssi_dbm = signal rssi }

unfoldable pub deliver_frame : List ℕ → List ℕ → ℤ → BleSeam → BleSeam
deliver_frame frame addr rssi s = record { queue = try_send (scanned frame addr rssi) s.queue }

unfoldable pub received : List ScannedFrame → Option ScannedFrame × BleSeam
received [] = (none, record { queue = [] })
received (f ∷ q) = (some f, record { queue = q })

-- The next frame, where one waits.
unfoldable pub next_scanned : BleSeam → Option ScannedFrame × BleSeam
next_scanned s = received s.queue

pub data Event : Type 0 where
  hears : (frame addr : List ℕ) → (rssi : ℤ) → Event
  reads : Event

unfoldable pub step : Event → BleSeam → Option ScannedFrame × BleSeam
step (hears frame addr rssi) s = (none, deliver_frame frame addr rssi s)
step reads s = next_scanned s

unfoldable pub cons : Option ScannedFrame → List ScannedFrame → List ScannedFrame
cons none fs = fs
cons (some f) fs = f ∷ fs

-- The frames that the face read, in order, and the seam after.
unfoldable pub run : List Event → BleSeam → List ScannedFrame × BleSeam
run [] s = ([], s)
run (e ∷ es) s = let (o, s) = step e s in let (fs, s) = run es s in (cons o fs, s)
