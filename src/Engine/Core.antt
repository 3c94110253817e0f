-- ===== src/Engine/Core.antt =====
-- The methods of the engine object that it has from its identity core.
use ndn_mobile.Prelude.{ℕ, Bool, List}
use ndn_mobile.Text.{Text}
use ndn_mobile.Types.{NdnContext}
use ndn_mobile.Identity
use ndn_mobile.Identity.{Parts, Act, EnclaveBackend}
use ndn_mobile.Identity.Announce
use ndn_mobile.Identity.Delegation
use ndn_mobile.Identity.Enclave
use ndn_mobile.Identity.Load
use ndn_mobile.Identity.Objects
use ndn_mobile.Identity.Owner
use ndn_mobile.Identity.Recovery
use ndn_mobile.Identity.Responder
use ndn_mobile.Identity.Trust
use ndn_mobile.Identity.Announce.{Commands}
use ndn_mobile.Identity.Delegation.{Delegations, Issuing, NdnDelegationScope}
use ndn_mobile.Identity.Load.{NdnEnrollConfig, NdnEnrolledIdentity}
use ndn_mobile.Identity.Objects.{Publishing}
use ndn_mobile.Identity.Recovery.{Recoveries, NdnRecoveredIdentity, NdnRevocation}
use ndn_mobile.Identity.Responder.{Gate, NdnActionClass}
use ndn_mobile.Engine.Object.{Host, NdnEngine, Call, on_core}

module _ (h : Host) where
  open h use {p, publishing, commands, delegations, issuing, recoveries}

  unfoldable pub pin_trust_anchor : List ℕ → Call h Bool
  pin_trust_anchor cert_wire = on_core h (Trust.pin_trust_anchor p cert_wire)

  unfoldable pub publish_object : Text → List ℕ → ℕ → Call h Bool
  publish_object name content chunk_size =
      on_core h (Objects.publish_object p publishing name content chunk_size)

  unfoldable pub join_context : List ℕ → ℕ → Call h NdnContext
  join_context context_wire version = on_core h (Trust.join_context p context_wire version)

  unfoldable pub list_contexts : NdnEngine h → List NdnContext
  list_contexts s = Trust.list_contexts p s.core

  unfoldable pub forget_context : Text → Call h Bool
  forget_context namespace = on_core h (Trust.forget_context p namespace)

  unfoldable pub load_identity : List ℕ → List ℕ → Text → Call h Text
  load_identity safebag password key_name = on_core h (Load.load p safebag password key_name)

  unfoldable pub has_identity : NdnEngine h → Bool
  has_identity s = Identity.has_identity p s.core

  unfoldable pub sign : List ℕ → Call h (List ℕ)
  sign region = on_core h (Identity.sign p region)

  unfoldable pub enroll_with_token : NdnEnrollConfig → Text → Call h NdnEnrolledIdentity
  enroll_with_token config token = on_core h (Load.enroll_with_token p config token)

  unfoldable pub enroll_with_token_enclave :
      NdnEnrollConfig → Text → EnclaveBackend → Call h NdnEnrolledIdentity
  enroll_with_token_enclave config token enclave =
      on_core h (Enclave.enroll_with_token_enclave p config token enclave)

  unfoldable pub generate_identity : Text → List ℕ → Call h NdnEnrolledIdentity
  generate_identity name persist_password = on_core h (Load.generate p name persist_password)

  unfoldable pub generate_identity_enclave : Text → EnclaveBackend → Call h NdnEnrolledIdentity
  generate_identity_enclave name enclave =
      on_core h (Enclave.generate_identity_enclave p name enclave)

  unfoldable pub load_identity_enclave : Text → Text → EnclaveBackend → Call h Bool
  load_identity_enclave key_name cert_name enclave =
      on_core h (Enclave.load_identity_enclave p key_name cert_name enclave)

  unfoldable pub respond_to_sign_request : List ℕ → Gate p → Call h (List ℕ)
  respond_to_sign_request request gate =
      on_core h (Responder.respond_to_sign_request p request gate)

  unfoldable pub announce_prefix : Text → Call h Bool
  announce_prefix prefix = on_core h (Announce.announce_prefix p commands prefix)

  unfoldable pub grant_signing_scope : NdnActionClass → ℕ → Call h ℕ
  grant_signing_scope action ttl_secs = on_core h (Responder.grant_signing_scope p action ttl_secs)

  unfoldable pub principal_did : Call h Text
  principal_did = on_core h (Owner.principal_did p)

  unfoldable pub principal_name : Call h Text
  principal_name = on_core h (Owner.principal_name p)

  unfoldable pub principal_public_key : Call h (List ℕ)
  principal_public_key = on_core h (Owner.principal_public_key p)

  unfoldable pub principal_cert_wire : Call h (List ℕ)
  principal_cert_wire = on_core h (Owner.principal_cert_wire p)

  unfoldable pub recovery_public_key : List ℕ → Call h (List ℕ)
  recovery_public_key recovery_seed =
      on_core h (Recovery.recovery_public_key p recoveries recovery_seed)

  unfoldable pub add_device : Text → NdnDelegationScope → Call h (List ℕ)
  add_device device scope = on_core h (Delegation.add_device p delegations issuing device scope)

  unfoldable pub verify_delegation : List ℕ → List ℕ → Call h NdnDelegationScope
  verify_delegation delegation_wire principal_pubkey =
      on_core h
        (Delegation.verify_delegation p delegations issuing delegation_wire principal_pubkey)

  unfoldable pub sign_delegated : List ℕ → List ℕ → List ℕ → Call h (List ℕ)
  sign_delegated region delegation_wire principal_pubkey =
      on_core h
        (Delegation.sign_delegated p delegations issuing region delegation_wire principal_pubkey)

  unfoldable pub sign_delegated_named : Text → List ℕ → List ℕ → List ℕ → Call h (List ℕ)
  sign_delegated_named name payload delegation_wire principal_pubkey = on_core h (
      Delegation.sign_delegated_named p delegations issuing name payload delegation_wire
        principal_pubkey)

  unfoldable pub make_recoverable : List ℕ → Call h (List ℕ)
  make_recoverable recovery_pubkey =
      on_core h (Recovery.make_recoverable p recoveries recovery_pubkey)

  unfoldable pub restore_identity : List ℕ → List ℕ → Text → List ℕ → Call h NdnRecoveredIdentity
  restore_identity bundle recovery_seed identity_name persist_password =
      on_core h
        (Recovery.restore_identity p recoveries bundle recovery_seed identity_name persist_password)

  unfoldable pub restore_identity_remote :
      List ℕ → Text → List ℕ → (List ℕ → List ℕ) → Call h NdnRecoveredIdentity
  restore_identity_remote bundle identity_name persist_password recovery_signer = on_core h (
      Recovery.restore_identity_remote p recoveries bundle identity_name persist_password
        recovery_signer)

  unfoldable pub revoke_identity : Text → Call h (List ℕ)
  revoke_identity reason = on_core h (Recovery.revoke_identity p recoveries reason)

  unfoldable pub verify_revocation : List ℕ → List ℕ → Call h NdnRevocation
  verify_revocation wire signer_pubkey =
      on_core h (Recovery.verify_revocation p recoveries wire signer_pubkey)

  unfoldable pub stop_signing_scope : Call h (Unit {0})
  stop_signing_scope = on_core h (Responder.stop_signing_scope p)

  unfoldable pub active_signing_scopes : Call h ℕ
  active_signing_scopes = on_core h (Responder.active_signing_scopes p)
