-- ===== src/Codec.antt =====
-- crates/ndn-boltffi/src/codec.rs: the fragmenter and the reassembler of the BLE link, the variable
-- length numbers and packet ends that the reassembler reads, and the nonce patch.
pub mod PacketEnd
pub mod Frame
pub mod Reassembly
pub mod Stream
pub mod Nonce
pub mod Packets
use package.ndn_mobile.Prelude.{ℕ, zero, suc, ◌+◌, ◌-◌, ◌%◌, ◌^◌, ◌/◌, min, max, bit_and, bit_or}
use package.ndn_mobile.Prelude.{
  Bool, true, false, not, ◌&&◌, Option, none, some, List, [], ◌∷◌, ◌++◌,
}
use package.ndn_mobile.Prelude.{
  ltb, leb, ◌==◌, if◌then◌else◌, length, take, drop, slice, null, be_value,
}
use mathlib.Core.Option

-- `usize` of the 64-bit targets; a release build wraps.
abbrev pub usize_mod : ℕ
usize_mod = 2 ^ 64

-- `parse_varnumber`: the value and the bytes that it takes.
unfoldable pub parse_varnumber : List ℕ → Option (ℕ × ℕ)
parse_varnumber [] = none
parse_varnumber (b ∷ rest) =
    if leb b 252
    then some (b, 1)
    else if b == 253 && leb 3 (length (b ∷ rest))
    then some (be_value 0 (take 2 rest), 3)
    else if b == 254 && leb 5 (length (b ∷ rest))
    then some (be_value 0 (take 4 rest), 5)
    else if b == 255 && leb 9 (length (b ∷ rest))
    then some (be_value 0 (take 8 rest), 9)
    else none

-- `buf.get(n..)`.
abbrev get_from : ℕ → List ℕ → Option (List ℕ)
get_from n buf = if leb n (length buf) then some (drop n buf) else none

-- `(buf.len() >= total).then_some(total)`.
abbrev within : List ℕ → ℕ → Option ℕ
within buf total = if leb total (length buf) then some total else none

length_end : List ℕ → ℕ → Option (ℕ × ℕ) → Option ℕ
length_end buf type_len none = none
length_end buf type_len (some (len, length_len)) =
    within buf ((type_len + length_len + len) % usize_mod)

type_end : List ℕ → Option (ℕ × ℕ) → Option ℕ
unfolding parse_varnumber length_end
type_end buf none = none
type_end buf (some (_, type_len)) = elim (get_from type_len buf) [
  | none ↦ none
  | some rest ↦ length_end buf type_len (parse_varnumber rest)
]

-- `tlv_packet_end`: the bytes of the packet at the head of the buffer, once they have all arrived.
unfoldable pub tlv_packet_end : List ℕ → Option ℕ
unfolding type_end parse_varnumber
tlv_packet_end buf = type_end buf (parse_varnumber buf)

pub record ReasmState : Type 0 where
  pub buffer : List ℕ
  pub active : Bool

-- `NdntsReassembler::new`, and the state that `reset` leaves.
abbrev pub idle : ReasmState
idle = record { buffer = []; active = false }

unfoldable pub reset : ReasmState → ReasmState
reset st = record st { buffer = []; active = false }

-- The tail of `feed`: cut off a complete packet.
cut : ReasmState → Option ℕ → ReasmState × Option (List ℕ)
cut st none = (st, none)
cut st (some end) =
    let left = drop end st.buffer in
    (
      record { buffer = left; active = if null left then false else st.active },
      some (take end st.buffer),
    )

unfoldable pub feed : ReasmState → List ℕ → ReasmState × Option (List ℕ)
unfolding cut tlv_packet_end
feed st [] = (st, none)
feed st (first ∷ body) =
    if not (bit_and first 0x80 == 0)
    then cut (record { buffer = body; active = true }) (tlv_packet_end body)
    else if st.active
    then cut (record st { buffer = st.buffer ++ body }) (tlv_packet_end (st.buffer ++ body))
    else (st, some (first ∷ body))

abbrev pub header_of : Bool → ℕ → ℕ
header_of true seq = bit_or 0x80 (bit_and seq 0x7f)
header_of false seq = bit_and seq 0x7f

-- The `while` loop of `ndnts_frame`, on fuel; `none` means that the fuel ran out.
frame_loop : ℕ → List ℕ → ℕ → ℕ → ℕ → Bool → Option (List (List ℕ))
frame_loop zero packet frag_payload offset seq is_first = none
frame_loop (suc fuel) packet frag_payload offset seq is_first =
    let end = min (offset + frag_payload) (length packet) in
    let frag = header_of is_first seq ∷ slice offset end packet in
    let rest = frame_loop fuel packet frag_payload end (bit_and (seq + 1) 0x7f) false in
    if ltb offset (length packet) then Option.map (λ frags. frag ∷ frags) rest else some []

-- `ndnts_frame`. Each round takes a byte at least, so one round for each byte and one to stop.
unfoldable pub ndnts_frame : List ℕ → ℕ → Option (List (List ℕ))
unfolding frame_loop
ndnts_frame packet max_payload =
    if leb (length packet) max_payload
    then some (packet ∷ [])
    else frame_loop (length packet + 1) packet (max (max_payload - 1) 1) 0 0 true

-- `nonce.to_be_bytes()`.
abbrev pub be_bytes4 : ℕ → List ℕ
be_bytes4 n = (n / 2 ^ 24 % 256) ∷ (n / 2 ^ 16 % 256) ∷ (n / 2 ^ 8 % 256) ∷ (n % 256) ∷ []

-- `patch_nonce`, on the suffix of the buffer that begins at the loop's index `i`: the loop runs
-- while six bytes are left, and returns at the first match.
unfoldable pub patch_nonce : List ℕ → ℕ → List ℕ
patch_nonce (a ∷ b ∷ c ∷ d ∷ e ∷ f ∷ rest) nonce =
    let later = patch_nonce (b ∷ c ∷ d ∷ e ∷ f ∷ rest) nonce in
    if a == 0x0a && b == 0x04 then a ∷ b ∷ be_bytes4 nonce ++ rest else a ∷ later
patch_nonce short nonce = short
