-- ===== src/Radio/Ble/Order.antt =====
-- What the face reads of the advertisements that the radio scans.
use ndn_mobile.Prelude.{
  ℕ, suc, ◌-◌, ◌≡◌, sym, ap, ◌∙◌, arith, ltb, if◌then◌else◌, Bool-cases, List, [], ◌∷◌, ◌++◌, inl,
  inr, length, length-append, append-nil, append_assoc,
}
use ndn_mobile.Radio.{try_send, queue_cap}
use ndn_mobile.Radio.Ble.{
  ScannedFrame, BleSeam, Event, hears, reads, make_seam, scanned, deliver_frame, received,
  next_scanned, step, cons, run,
}

-- The frames that found a place, where `n` wait: one that comes is shed where 256 wait, and one that
-- is read makes room.
abbrev pub admitted : ℕ → List Event → List ScannedFrame
admitted n [] = []
admitted n (hears frame addr rssi ∷ es) =
    let rest = admitted (suc n) es in
    let full = admitted n es in if ltb n queue_cap then scanned frame addr rssi ∷ rest else full
admitted n (reads ∷ es) = admitted (n - 1) es

sent :
    (f : ScannedFrame) (q : List ScannedFrame) (es : List Event)
    → ((s : BleSeam) → (run es s).0 ++ (run es s).1.queue ≡ s.queue ++ admitted (length s.queue) es)
    → (run es (record { queue = try_send f q })).0
        ++ (run es (record { queue = try_send f q })).1.queue
      ≡ q
        ++ (if ltb (length q) queue_cap
            then f ∷ admitted (suc (length q)) es
            else admitted (length q) es)
unfolding try_send
sent f q es rest = elim (Bool-cases (ltb (length q) queue_cap)) [
  | inl b ↦ rw b (
      rest (record { queue = q ++ f ∷ [] })
      ∙ ap (λ n. (q ++ f ∷ []) ++ admitted n es) (omega (arith, length-append q (f ∷ [])))
      ∙ append_assoc q (f ∷ []) (admitted (suc (length q)) es))
  | inr b ↦ rw b (rest (record { queue = q }))
]

took :
    (q : List ScannedFrame) (es : List Event)
    → ((s : BleSeam) → (run es s).0 ++ (run es s).1.queue ≡ s.queue ++ admitted (length s.queue) es)
    → cons (received q).0 (run es (received q).1).0 ++ (run es (received q).1).1.queue
      ≡ q ++ admitted (length q - 1) es
unfolding received cons
took [] es rest = rest (record { queue = [] })
took (f ∷ q) es rest =
    ap (λ fs. f ∷ fs) (rest (record { queue = q }))
    ∙ ap (λ n. (f ∷ q) ++ admitted n es) {y = suc (length q) - 1} (omega arith)

kept :
    (es : List Event) (s : BleSeam)
    → (run es s).0 ++ (run es s).1.queue ≡ s.queue ++ admitted (length s.queue) es
unfolding run step cons deliver_frame next_scanned
kept [] s = sym (append-nil s.queue)
kept (hears frame addr rssi ∷ es) s = sent (scanned frame addr rssi) s.queue es (kept es)
kept (reads ∷ es) s = took s.queue es (kept es)

-- The frames that the face reads, then those that wait, are all that were scanned, in order and each
-- once, but for those that came while 256 waited.
pub run_reads_in_order :
    (es : List Event) → (run es make_seam).0 ++ (run es make_seam).1.queue ≡ admitted 0 es
unfolding make_seam
run_reads_in_order es = kept es make_seam
