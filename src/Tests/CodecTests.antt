-- ===== src/Tests/CodecTests.antt =====
-- Runs of the fragmenter, the reassembler and the nonce patch of codec.rs.
use ndn_mobile.Prelude.{ℕ, ◌≡◌, refl, arith, true, none, some, List, [], ◌∷◌, inl, inr, length}
use ndn_mobile.Text.{Text, codes}
use ndn_mobile.Types.{engine, from_packet, bytes_or_empty}
use ndn_mobile.Codec.Packets.{
  Packets, encode_interest, decode_data, wrap_lp_packet, unwrap_lp_packet,
}
use ndn_mobile.Codec.{idle, reset, feed, ndnts_frame, tlv_packet_end, patch_nonce}
use ndn_mobile.Codec.PacketEnd.{tlv_packet_end_wraps, tlv_packet_end-prefix}
use ndn_mobile.Codec.Frame.{IsFraming, ndnts_frame-IsFraming}
use ndn_mobile.Codec.Reassembly.{feed_all, feed_all-ndnts_frame}
use ndn_mobile.Codec.Stream.{frame_all, feed_all-frame_all}
use ndn_mobile.Codec.Nonce.{patch_nonce_first}

-- Type 6, length 5.
abbrev packet : List ℕ
packet = 6 ∷ 5 ∷ 1 ∷ 2 ∷ 3 ∷ 4 ∷ 5 ∷ []

abbrev small : List ℕ
small = 5 ∷ 3 ∷ 1 ∷ 2 ∷ 3 ∷ []

cut_in_three :
    ndnts_frame packet 4 ≡ some ((128 ∷ 6 ∷ 5 ∷ 1 ∷ []) ∷ (1 ∷ 2 ∷ 3 ∷ 4 ∷ []) ∷ (2 ∷ 5 ∷ []) ∷ [])
unfolding ndnts_frame
cut_in_three = refl

long_form : tlv_packet_end (6 ∷ 253 ∷ 0 ∷ 2 ∷ 9 ∷ 9 ∷ 7 ∷ []) ≡ some 6
unfolding tlv_packet_end
long_form = refl

-- A small packet behind one whose last fragment was lost is taken for that fragment.
swallowed :
    feed_all idle ((128 ∷ 6 ∷ 5 ∷ 1 ∷ []) ∷ (1 ∷ 2 ∷ []) ∷ small ∷ [])
    ≡ (record { buffer = 3 ∷ []; active = true }, (6 ∷ 5 ∷ 1 ∷ 2 ∷ 3 ∷ 1 ∷ 2 ∷ []) ∷ [])
unfolding feed_all feed
swallowed = refl

reset_clears : reset (record { buffer = 1 ∷ []; active = true }) ≡ idle
unfolding reset
reset_clears = refl

ndnts_frame-IsFraming_example : IsFraming packet 4
ndnts_frame-IsFraming_example = ndnts_frame-IsFraming packet 4

feed_all-ndnts_frame_example :
    (frags : List (List ℕ)) × (ndnts_frame packet 4 ≡ some frags)
    × (feed_all (record { buffer = 6 ∷ 9 ∷ []; active = true }) frags ≡ (idle, packet ∷ []))
unfolding tlv_packet_end
feed_all-ndnts_frame_example =
    feed_all-ndnts_frame packet 4 (record { buffer = 6 ∷ 9 ∷ []; active = true }) (omega arith) refl

feed_all-frame_all_example :
    (frags : List (List ℕ)) × (frame_all 6 (packet ∷ small ∷ packet ∷ []) ≡ some frags)
    × (feed_all idle frags ≡ (idle, packet ∷ small ∷ packet ∷ []))
unfolding tlv_packet_end
feed_all-frame_all_example =
    feed_all-frame_all 6 (packet ∷ small ∷ packet ∷ [])
      ((omega arith, refl), ((omega arith, refl), ((omega arith, refl), tt)))

tlv_packet_end-prefix_example : tlv_packet_end (6 ∷ 5 ∷ 1 ∷ []) ≡ none
unfolding tlv_packet_end
tlv_packet_end-prefix_example =
    tlv_packet_end-prefix (6 ∷ 5 ∷ 1 ∷ []) (2 ∷ 3 ∷ 4 ∷ 5 ∷ []) refl (λ e. cc)

tlv_packet_end_wraps_example :
    tlv_packet_end (6 ∷ 255 ∷ 255 ∷ 255 ∷ 255 ∷ 255 ∷ 255 ∷ 255 ∷ 255 ∷ 249 ∷ 1 ∷ []) ≡ some 3
tlv_packet_end_wraps_example = tlv_packet_end_wraps 6 3 (1 ∷ []) (omega arith) (omega arith)

-- An Interest with an empty name.
patch_nonce_first_example :
    patch_nonce (5 ∷ 8 ∷ 7 ∷ 0 ∷ 10 ∷ 4 ∷ 1 ∷ 2 ∷ 3 ∷ 4 ∷ []) 0x11223344
    ≡ 5 ∷ 8 ∷ 7 ∷ 0 ∷ 10 ∷ 4 ∷ 0x11 ∷ 0x22 ∷ 0x33 ∷ 0x44 ∷ []
patch_nonce_first_example =
    patch_nonce_first (5 ∷ 8 ∷ 7 ∷ 0 ∷ []) 1 2 3 4 [] 0x11223344 (refl, (refl, (refl, refl)))

-- A name component of the bytes 10 and 4, and the four bytes behind it: those are overwritten.
patched_name :
    patch_nonce
      (7 ∷ 8 ∷ 8 ∷ 6 ∷ 10 ∷ 4 ∷ 97 ∷ 97 ∷ 97 ∷ 97 ∷ 10 ∷ 4 ∷ 0 ∷ 0 ∷ 0 ∷ 0 ∷ [])
      0x11223344
    ≡ 7 ∷ 8 ∷ 8 ∷ 6 ∷ 10 ∷ 4 ∷ 0x11 ∷ 0x22 ∷ 0x33 ∷ 0x44 ∷ 10 ∷ 4 ∷ 0 ∷ 0 ∷ 0 ∷ 0 ∷ []
unfolding patch_nonce
patched_name = refl

-- A name is its text, an Interest writes the nonce behind a name of no components, and the envelope
-- is type 100 and the length.
abbrev packets : Packets
packets = record {
  Name = Text;
  parse = λ t. some t;
  print = λ n. n;
  build_interest = λ random n. 5 ∷ 8 ∷ 7 ∷ 0 ∷ 10 ∷ 4 ∷ random ∷ random ∷ random ∷ random ∷ [];
  Data = List ℕ;
  decode_data = λ wire. inr wire;
  name = λ d. [];
  content = λ d. none;
  LpPacket = List ℕ;
  encode_lp_packet = λ payload. 100 ∷ length payload ∷ payload;
  decode_lp = λ wire. inr wire;
  fragment = λ lp. none;
}

chosen_nonce :
    encode_interest packets 9 (codes "/") 0x11223344
    ≡ inr (5 ∷ 8 ∷ 7 ∷ 0 ∷ 10 ∷ 4 ∷ 0x11 ∷ 0x22 ∷ 0x33 ∷ 0x44 ∷ [])
unfolding encode_interest patch_nonce
chosen_nonce = refl

empty_content : decode_data packets (6 ∷ 0 ∷ []) ≡ inr (record { name = []; content = [] })
unfolding decode_data from_packet bytes_or_empty
empty_content = refl

no_fragment :
    unwrap_lp_packet packets (wrap_lp_packet packets (5 ∷ []))
    ≡ inl (engine (codes "LpPacket contains no fragment"))
unfolding unwrap_lp_packet
no_fragment = refl
