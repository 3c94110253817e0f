-- ===== src/Client/Core.antt =====
-- The methods of the client that it has from its identity core.
use ndn_mobile.Prelude.{ℕ, Bool, List}
use ndn_mobile.Text.{Text}
use ndn_mobile.Types.{NdnContext}
use ndn_mobile.Identity
use ndn_mobile.Identity.{Parts, Act, EnclaveBackend}
use ndn_mobile.Identity.Announce
use ndn_mobile.Identity.Delegation
use ndn_mobile.Identity.Enclave
use ndn_mobile.Identity.Load
use ndn_mobile.Identity.Objects
use ndn_mobile.Identity.Owner
use ndn_mobile.Identity.Recovery
use ndn_mobile.Identity.Responder
use ndn_mobile.Identity.Trust
use ndn_mobile.Identity.Announce.{Commands}
use ndn_mobile.Identity.Delegation.{Delegations, Issuing, NdnDelegationScope}
use ndn_mobile.Identity.Load.{NdnEnrollConfig, NdnEnrolledIdentity}
use ndn_mobile.Identity.Objects.{Publishing}
use ndn_mobile.Identity.Recovery.{Recoveries, NdnRecoveredIdentity, NdnRevocation}
use ndn_mobile.Identity.Responder.{Gate, NdnActionClass}
use ndn_mobile.Offer
use ndn_mobile.Client.{Fetching, NdnClient, Call, on_core}

module _ (p : Parts) (offers : Offer.Library) (f : Fetching p) (o : Publishing p) (c : Commands p)
    (d : Delegations p) (i : Issuing p d) (r : Recoveries p) where
  unfoldable pub pin_trust_anchor : List ℕ → Call p offers f Bool
  pin_trust_anchor cert_wire = on_core p offers f (Trust.pin_trust_anchor p cert_wire)

  unfoldable pub publish_object : Text → List ℕ → ℕ → Call p offers f Bool
  publish_object name content chunk_size =
      on_core p offers f (Objects.publish_object p o name content chunk_size)

  unfoldable pub join_context : List ℕ → ℕ → Call p offers f NdnContext
  join_context context_wire version = on_core p offers f (Trust.join_context p context_wire version)

  unfoldable pub list_contexts : NdnClient p offers f → List NdnContext
  list_contexts s = Trust.list_contexts p s.core

  unfoldable pub forget_context : Text → Call p offers f Bool
  forget_context namespace = on_core p offers f (Trust.forget_context p namespace)

  unfoldable pub load_identity : List ℕ → List ℕ → Text → Call p offers f Text
  load_identity safebag password key_name =
      on_core p offers f (Load.load p safebag password key_name)

  unfoldable pub has_identity : NdnClient p offers f → Bool
  has_identity s = Identity.has_identity p s.core

  unfoldable pub use_remote_signer : Text → List ℕ → Call p offers f Bool
  use_remote_signer signer_prefix cert_wire =
      on_core p offers f (Load.use_remote_signer p signer_prefix cert_wire)

  unfoldable pub sign : List ℕ → Call p offers f (List ℕ)
  sign region = on_core p offers f (Identity.sign p region)

  unfoldable pub enroll_with_token : NdnEnrollConfig → Text → Call p offers f NdnEnrolledIdentity
  enroll_with_token config token = on_core p offers f (Load.enroll_with_token p config token)

  unfoldable pub enroll_with_token_enclave :
      NdnEnrollConfig → Text → EnclaveBackend → Call p offers f NdnEnrolledIdentity
  enroll_with_token_enclave config token enclave =
      on_core p offers f (Enclave.enroll_with_token_enclave p config token enclave)

  unfoldable pub generate_identity : Text → List ℕ → Call p offers f NdnEnrolledIdentity
  generate_identity name persist_password =
      on_core p offers f (Load.generate p name persist_password)

  unfoldable pub generate_identity_enclave :
      Text → EnclaveBackend → Call p offers f NdnEnrolledIdentity
  generate_identity_enclave name enclave =
      on_core p offers f (Enclave.generate_identity_enclave p name enclave)

  unfoldable pub load_identity_enclave : Text → Text → EnclaveBackend → Call p offers f Bool
  load_identity_enclave key_name cert_name enclave =
      on_core p offers f (Enclave.load_identity_enclave p key_name cert_name enclave)

  unfoldable pub respond_to_sign_request : List ℕ → Gate p → Call p offers f (List ℕ)
  respond_to_sign_request request gate =
      on_core p offers f (Responder.respond_to_sign_request p request gate)

  unfoldable pub announce_prefix : Text → Call p offers f Bool
  announce_prefix prefix = on_core p offers f (Announce.announce_prefix p c prefix)

  unfoldable pub grant_signing_scope : NdnActionClass → ℕ → Call p offers f ℕ
  grant_signing_scope action ttl_secs =
      on_core p offers f (Responder.grant_signing_scope p action ttl_secs)

  unfoldable pub principal_did : Call p offers f Text
  principal_did = on_core p offers f (Owner.principal_did p)

  unfoldable pub principal_name : Call p offers f Text
  principal_name = on_core p offers f (Owner.principal_name p)

  unfoldable pub principal_public_key : Call p offers f (List ℕ)
  principal_public_key = on_core p offers f (Owner.principal_public_key p)

  unfoldable pub principal_cert_wire : Call p offers f (List ℕ)
  principal_cert_wire = on_core p offers f (Owner.principal_cert_wire p)

  unfoldable pub recovery_public_key : List ℕ → Call p offers f (List ℕ)
  recovery_public_key recovery_seed =
      on_core p offers f (Recovery.recovery_public_key p r recovery_seed)

  unfoldable pub add_device : Text → NdnDelegationScope → Call p offers f (List ℕ)
  add_device device scope = on_core p offers f (Delegation.add_device p d i device scope)

  unfoldable pub verify_delegation : List ℕ → List ℕ → Call p offers f NdnDelegationScope
  verify_delegation delegation_wire principal_pubkey =
      on_core p offers f (Delegation.verify_delegation p d i delegation_wire principal_pubkey)

  unfoldable pub sign_delegated : List ℕ → List ℕ → List ℕ → Call p offers f (List ℕ)
  sign_delegated region delegation_wire principal_pubkey =
      on_core p offers f (Delegation.sign_delegated p d i region delegation_wire principal_pubkey)

  unfoldable pub sign_delegated_named : Text → List ℕ → List ℕ → List ℕ → Call p offers f (List ℕ)
  sign_delegated_named name payload delegation_wire principal_pubkey =
      on_core p offers f
        (Delegation.sign_delegated_named p d i name payload delegation_wire principal_pubkey)

  unfoldable pub make_recoverable : List ℕ → Call p offers f (List ℕ)
  make_recoverable recovery_pubkey =
      on_core p offers f (Recovery.make_recoverable p r recovery_pubkey)

  unfoldable pub restore_identity :
      List ℕ → List ℕ → Text → List ℕ → Call p offers f NdnRecoveredIdentity
  restore_identity bundle recovery_seed identity_name persist_password =
      on_core p offers f
        (Recovery.restore_identity p r bundle recovery_seed identity_name persist_password)

  unfoldable pub restore_identity_remote :
      List ℕ → Text → List ℕ → (List ℕ → List ℕ) → Call p offers f NdnRecoveredIdentity
  restore_identity_remote bundle identity_name persist_password recovery_signer =
      on_core p offers f
        (Recovery.restore_identity_remote p r bundle identity_name persist_password recovery_signer)

  unfoldable pub revoke_identity : Text → Call p offers f (List ℕ)
  revoke_identity reason = on_core p offers f (Recovery.revoke_identity p r reason)

  unfoldable pub verify_revocation : List ℕ → List ℕ → Call p offers f NdnRevocation
  verify_revocation wire signer_pubkey =
      on_core p offers f (Recovery.verify_revocation p r wire signer_pubkey)

  unfoldable pub stop_signing_scope : Call p offers f (Unit {0})
  stop_signing_scope = on_core p offers f (Responder.stop_signing_scope p)

  unfoldable pub active_signing_scopes : Call p offers f ℕ
  active_signing_scopes = on_core p offers f (Responder.active_signing_scopes p)
