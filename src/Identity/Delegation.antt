-- ===== src/Identity/Delegation.antt =====
-- Delegating to devices, and signing under a delegation.
use ndn_mobile.Prelude.{ℕ, Bool, List, [], ◌∷◌, ◌++◌, ◌⊎◌, map}
use ndn_mobile.Text.{Text, codes}
use ndn_mobile.Types.{NdnError, identity}
use ndn_mobile.Identity.{Parts, Act, ◌>>=◌, return, map_err, map_io, ok_or, get, name_in}
use ndn_mobile.Identity.Owner.{loaded_identity}

pub record NdnDelegationScope : Type 0 where
  pub sign_patterns : List Text
  pub unwrap_for : Bool
  pub enroll : Bool
  pub mgmt : Bool

-- What the identity library does with delegations.
pub record Delegations (p : Parts) : Type 1 where
  pub NamePattern : Type 0
  pub parse_pattern : Text → Text ⊎ NamePattern
  pub pattern_text : NamePattern → Text
  pub Delegation : Type 0
  pub encode : Delegation → List ℕ
  pub decode : List ℕ → Text ⊎ Delegation
  pub DelegatedSigner : Type 0

pub record CapabilitySet (p : Parts) (d : Delegations p) : Type 0 where
  pub patterns : List d.NamePattern
  pub unwrap_for : Bool
  pub enroll : Bool
  pub mgmt : Bool

pub record Issuing (p : Parts) (d : Delegations p) : Type 1 where
  pub issue : p.lib.Name → CapabilitySet p d → p.Principal → Text ⊎ d.Delegation
  pub verify :
      d.Delegation
      → (principal_pubkey : List ℕ) → p.lib.World
      → (Text ⊎ CapabilitySet p d) × p.lib.World
  pub from_delegation :
      p.lib.Signer
      → d.Delegation
      → (principal_pubkey : List ℕ) → p.lib.World
      → (Text ⊎ d.DelegatedSigner) × p.lib.World
  pub sign_scoped :
      d.DelegatedSigner
      → p.lib.Name
      → (region : List ℕ) → p.lib.World
      → (Text ⊎ List ℕ) × p.lib.World

module _ (p : Parts) (d : Delegations p) (i : Issuing p d) where
  open p use {lib}

  unfoldable pub scope_to_ffi : CapabilitySet p d → NdnDelegationScope
  scope_to_ffi scope = record {
    sign_patterns = map d.pattern_text scope.patterns;
    unwrap_for = scope.unwrap_for;
    enroll = scope.enroll;
    mgmt = scope.mgmt;
  }

  unfoldable pub parse_patterns : List Text → Act p (List d.NamePattern)
  parse_patterns [] = return p []
  parse_patterns (t ∷ ts) = do
    pattern_ ←
        map_err p (λ e. identity (codes "invalid sign pattern '" ++ t ++ codes "': " ++ e))
          (d.parse_pattern t)
    rest ← parse_patterns ts
    return p (pattern_ ∷ rest)

  unfoldable pub add_device : Text → NdnDelegationScope → Act p (List ℕ)
  add_device device scope = do
    device_name ← name_in p device
    patterns ← parse_patterns scope.sign_patterns
    principal ← loaded_identity p
    deleg ← map_err p identity (
        i.issue device_name
          (record {
            patterns = patterns;
            unwrap_for = scope.unwrap_for;
            enroll = scope.enroll;
            mgmt = scope.mgmt;
          })
          principal)
    return p (d.encode deleg)

  unfoldable pub decode_delegation : List ℕ → Act p d.Delegation
  decode_delegation delegation_wire =
      map_err p (λ e. identity (codes "malformed delegation: " ++ e)) (d.decode delegation_wire)

  unfoldable pub unverified : Text → NdnError
  unverified e = identity (codes "delegation did not verify: " ++ e)

  unfoldable pub verify_delegation :
      (delegation_wire principal_pubkey : List ℕ) → Act p NdnDelegationScope
  verify_delegation delegation_wire principal_pubkey = do
    deleg ← decode_delegation delegation_wire
    scope ← map_io p unverified (i.verify deleg principal_pubkey)
    return p (scope_to_ffi scope)

  unfoldable pub sign_delegated :
      (region delegation_wire principal_pubkey : List ℕ) → Act p (List ℕ)
  sign_delegated region delegation_wire principal_pubkey = do
    loaded ← get p (λ s. s.identity)
    signer ← ok_or p (identity (codes "no device identity loaded")) loaded
    deleg ← decode_delegation delegation_wire
    name ←
        ok_or p (identity (codes "region has no leading Name to scope-check"))
          (p.decode_name region)
    ds ← map_io p unverified (i.from_delegation signer deleg principal_pubkey)
    map_io p identity (i.sign_scoped ds name region)

  unfoldable pub sign_delegated_named :
      Text → (payload delegation_wire principal_pubkey : List ℕ) → Act p (List ℕ)
  sign_delegated_named name payload delegation_wire principal_pubkey = do
    n ← name_in p name
    sign_delegated (p.encode_name n ++ payload) delegation_wire principal_pubkey
