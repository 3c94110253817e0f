-- ===== src/Codec/Packets.antt =====
-- `NdnCodec` of codec.rs over the packet library: Interests with a chosen nonce, Data, NDNLPv2
-- envelopes.
use ndn_mobile.Prelude.{ℕ, Option, none, some, List, ◌⊎◌, inl, inr}
use ndn_mobile.Text.{Text, codes}
use ndn_mobile.Types.{NdnError, NdnData, from_packet, engine, invalid_name}
use ndn_mobile.Codec.{patch_nonce}

-- What the packet library does. `build_interest` draws a nonce of its own.
pub record Packets : Type 1 where
  pub Name : Type 0
  pub parse : Text → Option Name
  pub print : Name → Text
  pub build_interest : (random : ℕ) → Name → List ℕ
  pub Data : Type 0
  pub decode_data : List ℕ → Text ⊎ Data
  pub name : Data → Name
  pub content : Data → Option (List ℕ)
  pub LpPacket : Type 0
  pub encode_lp_packet : List ℕ → List ℕ
  pub decode_lp : List ℕ → Text ⊎ LpPacket
  pub fragment : LpPacket → Option (List ℕ)

module _ (lib : Packets) where
  open lib use {Data, LpPacket, Name}

  patched : Text → ℕ → ℕ → Option Name → NdnError ⊎ List ℕ
  patched name nonce random none = inl (invalid_name name)
  patched name nonce random (some parsed) =
      inr (patch_nonce (lib.build_interest random parsed) nonce)

  unfoldable pub encode_interest : (random : ℕ) → Text → (nonce : ℕ) → NdnError ⊎ List ℕ
  unfolding patched
  encode_interest random name nonce = patched name nonce random (lib.parse name)

  decoded : Text ⊎ Data → NdnError ⊎ NdnData
  decoded (inl e) = inl (engine e)
  decoded (inr packet) = inr (from_packet (λ d. lib.print (lib.name d)) lib.content packet)

  unfoldable pub decode_data : List ℕ → NdnError ⊎ NdnData
  unfolding decoded
  decode_data wire = decoded (lib.decode_data wire)

  unfoldable pub wrap_lp_packet : List ℕ → List ℕ
  wrap_lp_packet payload = lib.encode_lp_packet payload

  fragment_or_error : Option (List ℕ) → NdnError ⊎ List ℕ
  fragment_or_error none = inl (engine (codes "LpPacket contains no fragment"))
  fragment_or_error (some fragment) = inr fragment

  unwrapped : Text ⊎ LpPacket → NdnError ⊎ List ℕ
  unfolding fragment_or_error
  unwrapped (inl e) = inl (engine e)
  unwrapped (inr lp) = fragment_or_error (lib.fragment lp)

  unfoldable pub unwrap_lp_packet : List ℕ → NdnError ⊎ List ℕ
  unfolding unwrapped
  unwrap_lp_packet wire = unwrapped (lib.decode_lp wire)
