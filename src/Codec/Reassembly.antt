-- ===== src/Codec/Reassembly.antt =====
-- The reassembler of codec.rs against its fragmenter.
use mathlib.Core.List.{flatten}
use ndn_mobile.Prelude.{
  ℕ, zero, suc, ◌+◌, ◌-◌, ◌%◌, ◌≤◌, ◌<◌, ◌≡◌, ◌≢◌, refl, sym, ap, subst, ◌∙◌, arith,
}
use ndn_mobile.Prelude.{max, Bool, true, false, Option, none, some, List, [], ◌∷◌, ◌++◌, All}
use ndn_mobile.Prelude.{length, take, drop, append-nil, append_assoc, take-length, drop-length}
use ndn_mobile.Prelude.{bit_and_top_clear, bit_and_mask7}
use ndn_mobile.Codec.{ReasmState, idle, feed, header_of, cut, tlv_packet_end, ndnts_frame}
use ndn_mobile.Codec.PacketEnd.{tlv_packet_end-prefix}
use ndn_mobile.Codec.Frame.{
  chunks, with_headers, IsPiece, ndnts_frame-chunks, chunks-IsPiece, flatten-chunks,
}

-- What a run of `feed` hands out, in order.
abbrev pub emit : Option (List ℕ) → List (List ℕ) → List (List ℕ)
emit none out = out
emit (some packet) out = packet ∷ out

unfoldable pub feed_all : ReasmState → List (List ℕ) → ReasmState × List (List ℕ)
feed_all st [] = (st, [])
feed_all st (f ∷ fs) =
    let (st', packet) = feed st f in let (st'', out) = feed_all st' fs in (st'', emit packet out)

abbrev pub collecting : List ℕ → ReasmState
collecting buffer = record { buffer = buffer; active = true }

-- Exactly one packet, no more and no less.
abbrev pub IsPacket : List ℕ → Type 0
IsPacket p = tlv_packet_end p ≡ some (length p)

cut-none :
    (b : List ℕ)
    → tlv_packet_end b ≡ none
    → cut (collecting b) (tlv_packet_end b) ≡ (collecting b, none)
unfolding cut
cut-none b h = rw h

cut_whole : (b : List ℕ) → IsPacket b → cut (collecting b) (tlv_packet_end b) ≡ (idle, some b)
unfolding cut
cut_whole b h =
    rw (h, drop-length (length b) b (omega arith), take-length (length b) b (omega arith))

feed_next :
    (b c : List ℕ) (h : ℕ)
    → h < 128
    → feed (collecting b) (h ∷ c) ≡ cut (collecting (b ++ c)) (tlv_packet_end (b ++ c))
unfolding feed
feed_next b c h small = rw (bit_and_top_clear h small)

feed_first :
    (st : ReasmState) (c : List ℕ) → feed st (0x80 ∷ c) ≡ cut (collecting c) (tlv_packet_end c)
unfolding feed
feed_first st c = refl

pub feed_all-cons :
    (st : ReasmState) (f : List ℕ) (fs : List (List ℕ)) {st' : ReasmState} {o : Option (List ℕ)}
    → feed st f ≡ (st', o)
    → feed_all st (f ∷ fs) ≡ ((feed_all st' fs).0, emit o (feed_all st' fs).1)
unfolding feed_all
feed_all-cons st f fs e = rw e

with_headers-cons :
    (first : Bool) (seq : ℕ) (c : List ℕ) (cs : List (List ℕ))
    → with_headers first seq (c ∷ cs)
      ≡ (header_of first seq ∷ c) ∷ with_headers false ((seq + 1) % 128) cs
unfolding with_headers
with_headers-cons first seq c cs = refl

flatten-ne-nil :
    (k : ℕ) (c : List ℕ) (cs : List (List ℕ)) → All (IsPiece k) (c ∷ cs) → flatten (c ∷ cs) ≢ []
unfolding flatten
flatten-ne-nil k [] cs h e = absurd (omega arith)
flatten-ne-nil k (x ∷ c) cs h e = cc

flatten-cons : (c : List ℕ) (cs : List (List ℕ)) → flatten (c ∷ cs) ≡ c ++ flatten cs
unfolding flatten
flatten-cons c cs = refl

flatten_singleton : (c : List ℕ) → flatten (c ∷ []) ≡ c
unfolding flatten
flatten_singleton c = append-nil c

feed_all-nil : (st : ReasmState) (seq : ℕ) → feed_all st (with_headers false seq []) ≡ (st, [])
unfolding feed_all with_headers
feed_all-nil st seq = refl

-- After the first fragment, the pieces that are left complete the packet.
feed_all-rest :
    (k : ℕ) (cs : List (List ℕ)) (b : List ℕ) (seq : ℕ) (c : List ℕ)
    → seq < 128
    → All (IsPiece k) (c ∷ cs)
    → IsPacket (b ++ flatten (c ∷ cs))
    → feed_all (collecting b) (with_headers false seq (c ∷ cs))
      ≡ (idle, (b ++ flatten (c ∷ cs)) ∷ [])
feed_all-rest k [] b seq c small pieces whole =
    let same : b ++ flatten (c ∷ []) ≡ b ++ c = ap (λ r. b ++ r) (flatten_singleton c) in
    let step = feed_next b c seq small ∙ cut_whole (b ++ c) (subst IsPacket same whole) in
    rw (with_headers-cons, bit_and_mask7 seq small, same)
      (feed_all-cons _ _ _ step ∙ rw (feed_all-nil idle ((seq + 1) % 128)))
feed_all-rest k (c2 ∷ cs) b seq c small pieces whole =
    let same : b ++ flatten (c ∷ c2 ∷ cs) ≡ (b ++ c) ++ flatten (c2 ∷ cs) =
      ap (λ r. b ++ r) (flatten-cons c (c2 ∷ cs)) ∙ sym (append_assoc b c (flatten (c2 ∷ cs))) in
    let whole' = subst IsPacket same whole in
    let early =
      tlv_packet_end-prefix (b ++ c) (flatten (c2 ∷ cs)) whole' (flatten-ne-nil k c2 cs pieces.1) in
    let step = feed_next b c seq small ∙ cut-none (b ++ c) early in
    let rest = feed_all-rest k cs (b ++ c) ((seq + 1) % 128) c2 (omega arith) pieces.1 whole' in
    rw (with_headers-cons, bit_and_mask7 seq small, same) (feed_all-cons _ _ _ step ∙ rw rest)

-- The pieces of a packet, the first with its flag, are the packet again, whatever the state.
feed_all-pieces :
    (k : ℕ) (st : ReasmState) (c : List ℕ) (cs : List (List ℕ))
    → All (IsPiece k) (c ∷ cs)
    → IsPacket (flatten (c ∷ cs))
    → feed_all st (with_headers true 0 (c ∷ cs)) ≡ (idle, flatten (c ∷ cs) ∷ [])
feed_all-pieces k st c [] pieces whole =
    let same : flatten (c ∷ []) ≡ c = flatten_singleton c in
    let step = feed_first st c ∙ cut_whole c (subst IsPacket same whole) in
    rw (with_headers-cons, same) (feed_all-cons _ _ _ step ∙ rw (feed_all-nil idle 1))
feed_all-pieces k st c (c2 ∷ cs) pieces whole =
    let same = flatten-cons c (c2 ∷ cs) in
    let whole' = subst IsPacket same whole in
    let early =
      tlv_packet_end-prefix c (flatten (c2 ∷ cs)) whole' (flatten-ne-nil k c2 cs pieces.1) in
    let step = feed_first st c ∙ cut-none c early in
    rw (with_headers-cons, same)
      (feed_all-cons _ _ _ step ∙ rw (feed_all-rest k cs c 1 c2 (omega arith) pieces.1 whole'))

chunks-pieces :
    (n k : ℕ) (p : List ℕ)
    → 0 < k
    → 0 < length p
    → length p ≤ n
    → (c : List ℕ) × (cs : List (List ℕ)) × (chunks n k p ≡ c ∷ cs)
chunks-pieces zero k [] pos some_bytes h = absurd (omega arith)
chunks-pieces zero k (x ∷ p) pos some_bytes h = absurd (omega arith)
chunks-pieces (suc n) k [] pos some_bytes h = absurd (omega arith)
chunks-pieces (suc n) k (x ∷ p) pos some_bytes h =
    (take k (x ∷ p), chunks n k (drop k (x ∷ p)), unfold chunks in refl)

-- A packet that has to be cut comes out of its fragments whole, and leaves the reassembler empty,
-- from every state: what an earlier packet with lost fragments left behind is discarded.
pub feed_all-ndnts_frame :
    (p : List ℕ) (m : ℕ) (st : ReasmState)
    → m < length p
    → IsPacket p
    → (frags : List (List ℕ)) × (ndnts_frame p m ≡ some frags)
      × (feed_all st frags ≡ (idle, p ∷ []))
feed_all-ndnts_frame p m st long whole =
    let k = max (m - 1) 1 in
    let n = length p + 1 in
    let (c, cs, cut) = chunks-pieces n k p (omega arith) (omega arith) (omega arith) in
    let same : flatten (c ∷ cs) ≡ p =
      ap flatten (sym cut) ∙ flatten-chunks n k p (omega arith) (omega arith) in
    let pieces = subst (All (IsPiece k)) cut (chunks-IsPiece n k p (omega arith)) in
    (
      with_headers true 0 (c ∷ cs),
      ndnts_frame-chunks p m long ∙ ap (λ r. some (with_headers true 0 r)) cut,
      feed_all-pieces k st c cs pieces (subst IsPacket (sym same) whole)
          ∙ ap (λ r. (idle, r ∷ [])) same,
    )
