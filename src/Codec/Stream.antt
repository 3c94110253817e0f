-- ===== src/Codec/Stream.antt =====
-- A sequence of packets through the fragmenter and the reassembler of codec.rs.
use mathlib.Core.Option
use ndn_mobile.Prelude.{ℕ, ◌<◌, ◌≡◌, refl, ◌∙◌, arith, inl, inr, true}
use ndn_mobile.Prelude.{Option, none, some, List, [], ◌∷◌, ◌++◌, All, Bool-cases, length, leb}
use ndn_mobile.Prelude.{bit_and_top_clear}
use ndn_mobile.Codec.{ReasmState, idle, feed, ndnts_frame, parse_varnumber, tlv_packet_end}
use ndn_mobile.Codec.Reassembly.{feed_all, emit, IsPacket, feed_all-ndnts_frame}

-- A packet whose first byte has no flag bit, as every NDN packet type has.
abbrev pub StartsLow : List ℕ → Type 0
StartsLow [] = Unit
StartsLow (b ∷ bs) = b < 128

-- The fragments of consecutive packets, each cut by `ndnts_frame`.
unfoldable pub frame_all : ℕ → List (List ℕ) → Option (List (List ℕ))
frame_all m [] = some []
frame_all m (p ∷ ps) = elim (ndnts_frame p m) [
  | none ↦ none
  | some frags ↦ Option.map (λ rest. frags ++ rest) (frame_all m ps)
]

emit-append : (o : Option (List ℕ)) (xs ys : List (List ℕ)) → emit o (xs ++ ys) ≡ emit o xs ++ ys
emit-append none xs ys = refl
emit-append (some p) xs ys = refl

feed_all-append :
    (fs gs : List (List ℕ)) (st : ReasmState)
    → feed_all st (fs ++ gs) ≡ (
        let (st', out) = feed_all st fs in
        let (st'', out') = feed_all st' gs in (st'', out ++ out'))
unfolding feed_all
feed_all-append [] gs st = refl
feed_all-append (f ∷ fs) gs st = rw (feed_all-append fs gs (feed st f).0, emit-append (feed st f).1)

not-IsPacket-nil : ¬ IsPacket []
unfolding tlv_packet_end parse_varnumber
not-IsPacket-nil h = cc

ndnts_frame_fits : (p : List ℕ) (m : ℕ) → leb (length p) m ≡ true → ndnts_frame p m ≡ some (p ∷ [])
unfolding ndnts_frame
ndnts_frame_fits p m e = rw e

-- A packet that fits is passed on as it is.
feed_small : (p : List ℕ) → StartsLow p → IsPacket p → feed_all idle (p ∷ []) ≡ (idle, p ∷ [])
unfolding feed_all feed
feed_small [] low whole = absurd (not-IsPacket-nil whole)
feed_small (b ∷ bs) low whole = rw (bit_and_top_clear b low)

-- One packet, cut or not, from the empty state.
feed_all-one :
    (m : ℕ) (p : List ℕ)
    → StartsLow p
    → IsPacket p
    → (frags : List (List ℕ)) × (ndnts_frame p m ≡ some frags)
      × (feed_all idle frags ≡ (idle, p ∷ []))
feed_all-one m p low whole = elim (Bool-cases (leb (length p) m)) [
  | inl e ↦ (p ∷ [], ndnts_frame_fits p m e, feed_small p low whole)
  | inr e ↦ feed_all-ndnts_frame p m idle (ground arith) whole
]

frame_all-cons :
    (m : ℕ) (p : List ℕ) (ps : List (List ℕ)) {first rest : List (List ℕ)}
    → ndnts_frame p m ≡ some first
    → frame_all m ps ≡ some rest
    → frame_all m (p ∷ ps) ≡ some (first ++ rest)
unfolding frame_all
frame_all-cons m p ps cut cut' = ground arith

-- Packets that are cut one after the other, for any payload size, come out of the reassembler in
-- the same order, unchanged, and leave it empty.
pub feed_all-frame_all :
    (m : ℕ) (ps : List (List ℕ))
    → All (λ p. StartsLow p × IsPacket p) ps
    → (frags : List (List ℕ)) × (frame_all m ps ≡ some frags) × (feed_all idle frags ≡ (idle, ps))
unfolding frame_all
feed_all-frame_all m [] h = ([], refl, unfold feed_all in refl)
feed_all-frame_all m (p ∷ ps) h =
    let (first, cut, through) = feed_all-one m p h.0.0 h.0.1 in
    let (rest, cut', through') = feed_all-frame_all m ps h.1 in
    (
      first ++ rest,
      frame_all-cons m p ps cut cut',
      feed_all-append first rest idle ∙ rw (through, through'),
    )
