-- ===== src/Offer.antt =====
-- The offer board of crates/ndn-boltffi/src/offer.rs: which files the node offers, and the signed
-- manifest that lists them.
pub mod Calls
pub mod Content
pub mod Manifest
pub mod Offered
use ndn_mobile.Prelude.{
  ℕ, ◌+◌, Bool, true, false, if◌then◌else◌, Option, none, some, List, [], ◌∷◌, ◌++◌, ◌⊎◌, inl, inr,
  null, length, take,
}
use ndn_mobile.Text.{Text, codes, into_bytes}
use ndn_mobile.Text.Map.{lookup}
use ndn_mobile.Text.Print.{decimal}
use ndn_mobile.Types.{NdnError, invalid_name}
use ndn_mobile.Json.{push_json_str}
use ndn_mobile.Discovery.{peer_node_prefix}

abbrev pub offer_chunk : ℕ
offer_chunk = 8192

abbrev pub manifest_history : ℕ
manifest_history = 6

abbrev pub internal_content_prefix : Text
internal_content_prefix = codes "/localhost/ripple/content"

-- What the packet and object libraries do. `build` reads the clock for the version of the object;
-- `answer_interest` gives the wire of `Ok(Some(wire))` and nothing for the other two results.
pub record Library : Type 1 where
  pub Name : Type 0
  pub Signer : Type 0
  pub File : Type 0
  pub Wire : Type 0
  pub Prepared : Type 0
  pub parse : Text → Option Name
  pub append : Name → Text → Name
  pub append_segment : Name → ℕ → Name
  pub to_string : Name → Text
  pub build : (now : ℕ) → Name → (content : List ℕ) → (chunk : ℕ) → Prepared
  pub build_from_file : (now : ℕ) → Name → File → (size chunk : ℕ) → Prepared
  pub answer_interest : Prepared → Name → Option Signer → Option Wire
  pub last_seg : Prepared → ℕ
  pub versioned_name : Prepared → Name

module _ (lib : Library) where
  open lib use {Name, Signer, File, Wire, Prepared}

  -- What a serve registration answers with, until it is dropped: a signed object, or the raw
  -- segments of a content stream (Content).
  pub data ServeGuard : Type 0 where
    signed_object : Prepared → ServeGuard
    raw_content : Prepared → ServeGuard

  pub record OfferEntry : Type 0 where
    pub display_name : Text
    pub mime : Text
    pub name : Name
    pub size : ℕ
    pub guard : ServeGuard

  pub record OfferBoard : Type 0 where
    pub signer : Signer
    pub cert : Prepared
    pub identity_prefix : Name
    pub node_prefix : Name
    pub offers : List (Text × OfferEntry)
    -- Newest first.
    pub manifest : List Prepared

  unfoldable pub push_offer : Text → Text → OfferEntry → Text
  push_offer out file_id e =
      let out = push_json_str (out ++ codes "{\"file_id\":") file_id in
      let out = push_json_str (out ++ codes ",\"display_name\":") e.display_name in
      let out = push_json_str (out ++ codes ",\"mime\":") e.mime in
      let out = out ++ codes ",\"size\":" ++ decimal e.size in
      push_json_str (out ++ codes ",\"name\":") (lib.to_string e.name) ++ codes "}"

  unfoldable pub push_offers : Text → Bool → List (Text × OfferEntry) → Text
  push_offers out first [] = out
  push_offers out first ((file_id, e) ∷ m) =
      push_offers (push_offer (if first then out else out ++ codes ",") file_id e) false m

  unfoldable pub offers_json : Name → List (Text × OfferEntry) → Text
  offers_json node_prefix offers =
      let out = push_json_str (codes "{\"node\":") (lib.to_string node_prefix) in
      push_offers (out ++ codes ",\"offers\":[") true offers ++ codes "]}"

  unfoldable pub build_manifest : ℕ → Name → Name → List (Text × OfferEntry) → Prepared
  build_manifest now manifest_name node_prefix offers =
      lib.build now manifest_name (into_bytes (offers_json node_prefix offers)) 8192

  unfoldable pub start : ℕ → Signer → List ℕ → Name → Name → OfferBoard
  start now signer cert_wire identity_prefix node_prefix = record {
    signer = signer;
    cert = lib.build now (lib.append node_prefix (codes "cert")) cert_wire 8192;
    identity_prefix = identity_prefix;
    node_prefix = node_prefix;
    offers = [];
    manifest = build_manifest now (lib.append node_prefix (codes "offers")) node_prefix [] ∷ [];
  }

  unfoldable pub new : ℕ → Signer → List ℕ → Text → Name → NdnError ⊎ OfferBoard
  new now signer cert_wire node_id identity_prefix = elim (lib.parse (peer_node_prefix node_id)) [
    | none ↦ inl (invalid_name (peer_node_prefix node_id))
    | some node_prefix ↦ inr (start now signer cert_wire identity_prefix node_prefix)
  ]

  -- The handlers of the two endpoints.
  unfoldable pub serve_cert : OfferBoard → Name → Option Wire
  serve_cert b name = lib.answer_interest b.cert name none

  unfoldable pub first_answer : List Prepared → Name → Option Signer → Option Wire
  first_answer [] name signer = none
  first_answer (m ∷ ms) name signer = elim (lib.answer_interest m name signer) [
    | none ↦ first_answer ms name signer
    | some wire ↦ some wire
  ]

  unfoldable pub serve_manifest : OfferBoard → Name → Option Wire
  serve_manifest b name = first_answer b.manifest name (some b.signer)

  -- The handler that `serve_prepared` installs.
  unfoldable pub serve_object : OfferBoard → Prepared → Name → Option Wire
  serve_object b prepared name = lib.answer_interest prepared name (some b.signer)

  unfoldable pub rebuild_manifest : ℕ → OfferBoard → OfferBoard
  rebuild_manifest now b =
      let rebuilt =
        build_manifest now (lib.append b.node_prefix (codes "offers")) b.node_prefix b.offers in
      record b { manifest = take manifest_history (rebuilt ∷ b.manifest) }
