-- ===== src/Types/Envelope.antt =====
-- Trust envelopes: `NdnTrustEnvelope` of crates/ndn-boltffi/src/types.rs, and `NdnTrust` of
-- crates/ndn-boltffi/src/trust.rs over the envelope library.
use ndn_mobile.Prelude.{ℕ, ◌≡◌, Bool, true, false, Option, List, ◌⊎◌, inl, inr}
use ndn_mobile.Text.{Text}
use ndn_mobile.Types.{NdnError, engine}

pub data NdnTrustEnvelope : Type 0 where
  anchor : (version : ℕ) (context_content : List ℕ) → NdnTrustEnvelope
  invite : (ca_prefix identity_namespace token : Text) (ttl_secs : Option ℕ) → NdnTrustEnvelope
  delegation : (signed_delegation principal_pubkey : List ℕ) → NdnTrustEnvelope
  recovery : (bundle : List ℕ) → NdnTrustEnvelope
  bag : (key_name : Text) (safebag : List ℕ) → NdnTrustEnvelope
  capability :
      (is_grant : Bool) (namespace : Text) (scope_patterns : List Text) (ttl_secs : ℕ)
      (nonce : List ℕ) (grant : Option (List ℕ))
      → NdnTrustEnvelope

-- The envelope library's types.
pub data CapDirection : Type 0 where
  request_direction : CapDirection
  grant_direction : CapDirection

pub record Capability : Type 0 where
  pub direction : CapDirection
  pub namespace : Text
  pub scope_patterns : List Text
  pub ttl_secs : ℕ
  pub nonce : List ℕ
  pub grant : Option (List ℕ)

pub data TrustEnvelope : Type 0 where
  anchor_envelope : (version : ℕ) (context_content : List ℕ) → TrustEnvelope
  invite_envelope :
      (ca_prefix identity_namespace token : Text) (ttl_secs : Option ℕ) → TrustEnvelope
  delegation_envelope : (signed_delegation principal_pubkey : List ℕ) → TrustEnvelope
  recovery_envelope : (bundle : List ℕ) → TrustEnvelope
  bag_envelope : (key_name : Text) (safebag : List ℕ) → TrustEnvelope
  capability_envelope : Capability → TrustEnvelope

unfoldable is_grant_direction : CapDirection → Bool
is_grant_direction request_direction = false
is_grant_direction grant_direction = true

unfoldable pub convert : TrustEnvelope → NdnTrustEnvelope
unfolding is_grant_direction
convert (anchor_envelope version context_content) = anchor version context_content
convert (invite_envelope ca_prefix identity_namespace token ttl_secs) =
    invite ca_prefix identity_namespace token ttl_secs
convert (delegation_envelope signed_delegation principal_pubkey) =
    delegation signed_delegation principal_pubkey
convert (recovery_envelope bundle) = recovery bundle
convert (bag_envelope key_name safebag) = bag key_name safebag
convert (capability_envelope c) =
    capability (is_grant_direction c.direction) c.namespace c.scope_patterns c.ttl_secs c.nonce
      c.grant

unfoldable direction_of : Bool → CapDirection
direction_of true = grant_direction
direction_of false = request_direction

pub record Envelopes : Type 0 where
  pub to_uri : TrustEnvelope → Text
  pub from_uri : Text → Text ⊎ TrustEnvelope

module _ (lib : Envelopes) where
  converted : Text ⊎ TrustEnvelope → NdnError ⊎ NdnTrustEnvelope
  converted (inl e) = inl (engine e)
  converted (inr env) = inr (convert env)

  unfoldable pub parse : Text → NdnError ⊎ NdnTrustEnvelope
  unfolding converted
  parse uri = converted (lib.from_uri uri)

  unfoldable pub build_delegation : List ℕ → List ℕ → Text
  build_delegation signed_delegation principal_pubkey =
      lib.to_uri (delegation_envelope signed_delegation principal_pubkey)

  unfoldable pub build_recovery : List ℕ → Text
  build_recovery bundle = lib.to_uri (recovery_envelope bundle)

  unfoldable pub build_capability : Bool → Text → List Text → ℕ → List ℕ → Option (List ℕ) → Text
  unfolding direction_of
  build_capability is_grant namespace scope_patterns ttl_secs nonce grant = lib.to_uri (
      capability_envelope (record {
        direction = direction_of is_grant;
        namespace = namespace;
        scope_patterns = scope_patterns;
        ttl_secs = ttl_secs;
        nonce = nonce;
        grant = grant;
      }))

  -- What the host asks to have built.
  pub data Built : NdnTrustEnvelope → Text → Type 0 where
    built_delegation : (d k : List ℕ) → Built (delegation d k) (build_delegation d k)
    built_recovery : (b : List ℕ) → Built (recovery b) (build_recovery b)
    built_capability :
        (g : Bool) (n : Text) (ps : List Text) (t : ℕ) (x : List ℕ) (o : Option (List ℕ))
        → Built (capability g n ps t x o) (build_capability g n ps t x o)

  -- Where the library reads its own URIs back, every URI that the host builds from fields parses as
  -- the envelope of these fields.
  pub parse-Built :
      (reads : (env : TrustEnvelope) → lib.from_uri (lib.to_uri env) ≡ inr env)
      (e : NdnTrustEnvelope) (uri : Text)
      → Built e uri
      → parse uri ≡ inr e
  unfolding parse build_delegation build_recovery build_capability convert converted
      is_grant_direction direction_of
  parse-Built reads _ _ (built_delegation d k) = rw (reads (delegation_envelope d k))
  parse-Built reads _ _ (built_recovery b) = rw (reads (recovery_envelope b))
  parse-Built reads _ _ (built_capability true n ps t x o) = rw (reads (capability_envelope _))
  parse-Built reads _ _ (built_capability false n ps t x o) = rw (reads (capability_envelope _))
