-- ===== src/Identity/Load.antt =====
-- Ways to load an identity whose key is software or remote.
use ndn_mobile.Prelude.{ℕ, Bool, true, Option, some, List, ◌++◌, ◌⊎◌, inl, inr}
use ndn_mobile.Text.{Text, codes}
use ndn_mobile.Types.{identity, engine}
use ndn_mobile.Enroll
use ndn_mobile.Enroll.{
  EnrollError, key, cert, sign, fetch, empty_response, incomplete, no_certificate, not_exportable,
  safebag, EnrollConfig, M, with_validity_secs,
}
use ndn_mobile.Enroll.Identity.{EnrolledIdentity, enroll_token_conn, generate_identity}
use ndn_mobile.Enroll.Safebag.{to_safebag, load_identity}
use ndn_mobile.RemoteSigner.{from_cert}
use ndn_mobile.Identity.{
  Parts, Act, ◌>>=◌, ◌>>◌, return, map_err, map_io, name_in, set_identity, set_cert,
}
use ndn_mobile.Identity.Owner.{validity_secs, loaded_identity}

-- `Display` of an enrollment error.
unfoldable pub error_text : EnrollError → Text
error_text (key e) = codes "key generation/export: " ++ e
error_text (cert e) = codes "NDNCERT protocol: " ++ e
error_text (sign e) = codes "Interest signing: " ++ e
error_text (fetch e) = codes "fetch from CA failed: " ++ e
error_text empty_response = codes "CA response missing content"
error_text incomplete = codes "enrollment did not complete after PIN submission"
error_text no_certificate = codes "no issued cert was fetched; SafeBag needs the certificate"
error_text not_exportable = codes "custodian/enclave key is not exportable to a SafeBag"
error_text (safebag e) = codes "SafeBag: " ++ e

unfoldable pub by_text : {A : Type 0} → EnrollError ⊎ A → Text ⊎ A
by_text (inl e) = inl (error_text e)
by_text (inr a) = inr a

pub record NdnEnrollConfig : Type 0 where
  pub ca_prefix : Text
  pub identity : Text
  pub validity_secs : ℕ
  pub persist_password : List ℕ

pub record NdnEnrolledIdentity : Type 0 where
  pub key_name : Text
  pub cert_name : Text
  pub certificate : Option (List ℕ)
  pub safebag : List ℕ

module _ (p : Parts) where
  open p use {lib, keys, bags}
  open lib use {World}

  unfoldable pub enrolling : {A : Type 0} → M World A → Act p A
  enrolling m = map_io p identity (λ w. let (r, w') = m w in (by_text r, w'))

  unfoldable pub view : EnrolledIdentity lib → List ℕ → NdnEnrolledIdentity
  view id bag = record {
    key_name = p.to_string id.key_name;
    cert_name = p.to_string id.cert_name;
    certificate = id.certificate;
    safebag = bag;
  }

  -- The certificate and the signer of an enrolled identity become the core's.
  unfoldable pub install : EnrolledIdentity lib → Act p Unit
  install id = do set_cert p id.certificate; set_identity p id.signer

  -- Stored under the password before it is loaded.
  unfoldable pub persist : List ℕ → EnrolledIdentity lib → Act p NdnEnrolledIdentity
  persist password id = do
    bag ← enrolling (to_safebag lib keys bags password id)
    install id
    return p (view id (p.encode_bag bag))

  unfoldable pub config_of : NdnEnrollConfig → Act p (EnrollConfig lib)
  config_of config = do
    ca ← name_in p config.ca_prefix
    id ← name_in p config.identity
    return p (with_validity_secs lib config.validity_secs (Enroll.new lib ca id))

  unfoldable pub enroll_with_token : NdnEnrollConfig → Text → Act p NdnEnrolledIdentity
  enroll_with_token config token = do
    cfg ← config_of config
    enrolled ← enrolling (enroll_token_conn lib keys cfg token)
    persist config.persist_password enrolled

  unfoldable pub generate : Text → List ℕ → Act p NdnEnrolledIdentity
  generate name persist_password = do
    id_name ← name_in p name
    generated ← enrolling (generate_identity lib keys id_name validity_secs)
    persist persist_password generated

  unfoldable pub load : (bag_wire password : List ℕ) → (key_name : Text) → Act p Text
  load bag_wire password key_name = do
    bag ← map_err p identity (p.decode_bag bag_wire)
    name ← name_in p key_name
    signer ← enrolling (load_identity lib keys bags bag password name)
    set_cert p (some (p.bag_certificate bag))
    set_identity p signer
    principal ← loaded_identity p
    return p (p.did principal)

  unfoldable pub use_remote_signer : Text → List ℕ → Act p Bool
  use_remote_signer prefix cert_wire = do
    name ← name_in p prefix
    signer ←
        map_err p (λ e. engine (codes "remote signer setup: " ++ e))
          (from_cert p.remote (p.remote_name name) (p.remote_wire cert_wire))
    set_identity p (p.of_remote signer)
    set_cert p (some cert_wire)
    return p true
