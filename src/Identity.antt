-- ===== src/Identity.antt =====
-- The identity core of crates/ndn-boltffi/src/identity_core.rs: its state, and calls that change it
-- and the world and may fail.
pub mod Serving
pub mod Trust
pub mod Owner
pub mod Load
pub mod Enclave
pub mod Responder
pub mod Gate
pub mod Announce
pub mod Delegation
pub mod Recovery
pub mod Objects
pub mod Atomic
use ndn_mobile.Prelude.{ℕ, Bool, true, false, Option, none, some, List, [], ◌++◌, ◌⊎◌, inl, inr}
use ndn_mobile.Text.{Text, codes}
use ndn_mobile.Types.{NdnError, identity, invalid_name}
use ndn_mobile.Enroll
use ndn_mobile.Enroll.Identity.{Keys}
use ndn_mobile.Enroll.Safebag.{Bags}
use ndn_mobile.RemoteSigner
use ndn_mobile.RemoteSigner.{RemoteSignerClient}

pub data ActionClass : Type 0 where
  route : ActionClass
  face : ActionClass
  strategy : ActionClass
  content_store : ActionClass
  other : ActionClass

pub data Decision : Type 0 where
  auto_approve : Decision
  prompt : Decision

pub record ScopedGrant : Type 0 where
  -- Nanoseconds since 1970.
  pub expires_at : ℕ
  pub action_filter : Option ActionClass

pub record SignRequest : Type 0 where
  pub req_id : ℕ
  pub region : List ℕ

pub data SignResponse : Type 0 where
  approved : (req_id : ℕ) → (signature : List ℕ) → SignResponse
  denied : (req_id : ℕ) → SignResponse

-- The host's enclave, as it answers during one call.
pub record EnclaveBackend : Type 0 where
  pub is_available : Bool
  pub public_key : List ℕ
  pub sign_raw : List ℕ → List ℕ

-- What the packet, security and identity libraries do, beside what enrollment and the remote signer
-- use. The clock is past 1970.
pub record Parts : Type 2 where
  pub lib : Enroll.Library
  pub keys : Keys lib
  pub bags : Bags lib
  pub remote : RemoteSigner.Library
  -- Names and texts.
  pub parse : Text → Option lib.Name
  pub to_string : lib.Name → Text
  pub encode_name : lib.Name → List ℕ
  pub decode_name : List ℕ → Option lib.Name
  pub remote_name : lib.Name → remote.Name
  pub remote_wire : List ℕ → remote.Wire
  -- `dyn Signer`.
  pub of_remote : RemoteSignerClient remote → lib.Signer
  pub key_name : lib.Signer → lib.Name
  pub cert_name : lib.Signer → Option lib.Name
  pub public_key : lib.Signer → Option (List ℕ)
  pub sign_region : lib.Signer → List ℕ → lib.World → (Text ⊎ List ℕ) × lib.World
  pub encode_cert :
      lib.Name → List ℕ → lib.Signer → (from until : ℕ) → lib.World → (Text ⊎ List ℕ) × lib.World
  -- `EnclaveCustodian` and `CustodianSigner` for a key id.
  pub enclave_custodian :
      (sign : List ℕ → Text ⊎ List ℕ) → Text → lib.Name → (pubkey : List ℕ) → keys.Custodial
  -- `SafeBag`.
  pub decode_bag : List ℕ → Text ⊎ bags.Bag
  pub encode_bag : bags.Bag → List ℕ
  pub bag_certificate : bags.Bag → List ℕ
  -- `Certificate`, `Keyring` and `Validator`.
  pub Packet : Type 0
  pub Cert : Type 0
  pub decode_packet : List ℕ → Text ⊎ Packet
  pub decode_cert : Packet → Text ⊎ Cert
  pub Context : Type 0
  pub decode_context : List ℕ → (version : ℕ) → Text ⊎ Context
  pub namespace : Context → lib.Name
  pub version : Context → ℕ
  pub anchors : Context → List Cert
  pub enforces_hierarchy : Context → Bool
  pub Keyring : Type 0
  pub no_contexts : Keyring
  pub adopt : Context → Keyring → Keyring
  pub context_for : lib.Name → Keyring → Context
  pub contexts : Keyring → List Context
  pub forget : lib.Name → Keyring → Bool × Keyring
  pub Validator : Type 0
  pub hierarchical : Validator
  pub add_trust_anchor : Cert → Validator → Validator
  pub adopt_context : Context → Validator → Validator
  -- `ScopedSigningPolicy`, with the time in nanoseconds.
  pub Policy : Type 0
  pub no_grants : Policy
  pub decide : Policy → List ℕ → (now : ℕ) → Decision
  pub grant : ScopedGrant → Policy → Policy
  pub clear : Policy → Policy
  pub active_grants : Policy → (now : ℕ) → ℕ
  pub decode_request : List ℕ → Text ⊎ SignRequest
  pub encode_response : SignResponse → List ℕ
  -- `ndn_identity::Identity`.
  pub Principal : Type 0
  pub from_signer : lib.Name → lib.Name → lib.Signer → Text ⊎ Principal
  pub did : Principal → Text
  pub name_of : Principal → lib.Name

module _ (p : Parts) where
  open p use {lib}
  open lib use {World, Signer}

  -- The state of the core, with the world that its connection reaches.
  pub record IdentityCore : Type 0 where
    pub identity : Option Signer
    pub cert_wire : Option (List ℕ)
    pub sign_policy : p.Policy
    pub keyring : p.Keyring
    pub pinned_anchors : List p.Cert
    pub world : World

  unfoldable pub new : World → IdentityCore
  new w = record {
    identity = none;
    cert_wire = none;
    sign_policy = p.no_grants;
    keyring = p.no_contexts;
    pinned_anchors = [];
    world = w;
  }

  -- A call that may fail.
  abbrev pub Act : Type 0 → Type 0
  Act A = IdentityCore → (NdnError ⊎ A) × IdentityCore

  unfoldable pub and_then :
      {A B : Type 0} → (NdnError ⊎ A) × IdentityCore → (A → Act B) → (NdnError ⊎ B) × IdentityCore
  and_then (inl e, s) f = (inl e, s)
  and_then (inr a, s) f = f a s

  abbrev pub bind : {A B : Type 0} → Act A → (A → Act B) → Act B
  bind m f s = and_then (m s) f

  abbrev pub return : {A : Type 0} → A → Act A
  return a s = (inr a, s)

  abbrev pub fail : {A : Type 0} → NdnError → Act A
  fail e s = (inl e, s)

  unfoldable pub map_err : {A : Type 0} → (Text → NdnError) → Text ⊎ A → Act A
  map_err f (inl e) s = (inl (f e), s)
  map_err f (inr a) s = (inr a, s)

  unfoldable pub ok_or : {A : Type 0} → NdnError → Option A → Act A
  ok_or e none s = (inl e, s)
  ok_or e (some a) s = (inr a, s)

  -- What the world answers.
  unfoldable pub lift : {A : Type 0} → (World → A × World) → Act A
  lift m s = let (a, w) = m s.world in (inr a, record s { world = w })

  abbrev pub map_io : {A : Type 0} → (Text → NdnError) → (World → (Text ⊎ A) × World) → Act A
  map_io f m = bind (lift m) (map_err f)

  abbrev pub get : {A : Type 0} → (IdentityCore → A) → Act A
  get f s = (inr (f s), s)

  abbrev pub modify : (IdentityCore → IdentityCore) → Act Unit
  modify f s = (inr tt, f s)

  -- `parse`, with the text in the error.
  unfoldable pub name_in : Text → Act lib.Name
  name_in text = ok_or (invalid_name text) (p.parse text)

  unfoldable pub no_identity : NdnError
  no_identity = identity (codes "no identity loaded")

  unfoldable pub current_signer : Act (Option Signer)
  current_signer = get (λ s. s.identity)

  unfoldable pub loaded_signer : Act Signer
  loaded_signer = bind (get (λ s. s.identity)) (ok_or no_identity)

  unfoldable pub has_identity : IdentityCore → Bool
  has_identity s = elim s.identity [ none ↦ false | some signer ↦ true ]

  unfoldable pub set_identity : Signer → Act Unit
  set_identity signer = modify (λ s. record s { identity = some signer })

  unfoldable pub set_cert : Option (List ℕ) → Act Unit
  set_cert cert_wire = modify (λ s. record s { cert_wire = cert_wire })

  -- Signing with the loaded identity.
  unfoldable pub sign_with : Signer → List ℕ → Act (List ℕ)
  sign_with signer region = map_io identity (p.sign_region signer region)

  unfoldable pub sign : List ℕ → Act (List ℕ)
  sign region = bind loaded_signer (λ signer. sign_with signer region)

infixl 5 ◌>>=◌ ◌>>◌
abbrev pub ◌>>=◌ : {p : Parts} {A B : Type 0} → Act p A → (A → Act p B) → Act p B
◌>>=◌ {p = p} m f = bind p m f

abbrev pub ◌>>◌ : {p : Parts} {A B : Type 0} → Act p A → Act p B → Act p B
◌>>◌ {p = p} m k = bind p m (λ a. k)
