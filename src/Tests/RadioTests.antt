-- ===== src/Tests/RadioTests.antt =====
-- Runs of a radio seam.
use ndn_mobile.Prelude.{◌≡◌, ◌≤◌, refl, none, List, [], ◌∷◌, ◌++◌, length, map}
use ndn_mobile.Text.{codes}
use ndn_mobile.Text.Print.{pos, negsuc}
use ndn_mobile.Radio.{
  Event, followup, matched, next, make_seam, address, signal, try_send, deliver_followup,
  push_match, on_match, pop, next_followup, step, run, queue_cap,
}
use ndn_mobile.Radio.Ble
use ndn_mobile.Radio.Ble.{hears, reads, scanned, deliver_frame, next_scanned, cons}
use ndn_mobile.Radio.Ble.Order.{admitted, run_reads_in_order}
use ndn_mobile.Radio.Buffers.{seen, latest, run_keeps_latest}

-- The second match has a short address; the signal of the frame left is unknown.
abbrev events : List Event
events =
    matched (codes "ndn") (1 ∷ 2 ∷ 3 ∷ 4 ∷ 5 ∷ 6 ∷ [])
    ∷ matched (codes "ndn") (1 ∷ [])
    ∷ followup (9 ∷ []) [] (negsuc 59)
    ∷ followup (8 ∷ []) [] (pos 200)
    ∷ next
    ∷ []

received : run events make_seam ≡ record {
  queue = record { frame = 8 ∷ []; peer = none; rssi_dbm = none } ∷ [];
  matches = (codes "ndn", 1 ∷ 2 ∷ 3 ∷ 4 ∷ 5 ∷ 6 ∷ []) ∷ [];
}
unfolding step deliver_followup on_match push_match address signal try_send next_followup pop
received = refl

run_keeps_latest_example :
    ((run events make_seam).matches ≡ latest (seen events []))
    × (length (run events make_seam).queue ≤ queue_cap)
run_keeps_latest_example = run_keeps_latest events

abbrev adverts : List Ble.Event
adverts = hears (7 ∷ []) [] (pos 0) ∷ reads ∷ hears (8 ∷ []) [] (negsuc 59) ∷ reads ∷ reads ∷ []

run_reads_in_order_example :
    (Ble.run adverts Ble.make_seam).0 ++ (Ble.run adverts Ble.make_seam).1.queue
    ≡ admitted 0 adverts
run_reads_in_order_example = run_reads_in_order adverts

both_read : map (λ f. f.frame) (Ble.run adverts Ble.make_seam).0 ≡ (7 ∷ []) ∷ (8 ∷ []) ∷ []
unfolding Ble.run Ble.step Ble.make_seam deliver_frame scanned try_send next_scanned Ble.received
    cons
both_read = refl
