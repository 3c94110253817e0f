-- ===== src/Identity/Enclave.antt =====
-- Identities whose key is in the device's enclave.
use ndn_mobile.Prelude.{
  ℕ, ◌/◌, ◌%◌, ◌^◌, Bool, true, not, if◌then◌else◌, some, List, [], ◌∷◌, ◌++◌, ◌⊎◌, inl, inr,
}
use ndn_mobile.Text.{Text, codes}
use ndn_mobile.Types.{identity}
use ndn_mobile.Enroll.Identity.{until_ns, enroll_token_custodian_conn}
use ndn_mobile.Identity.{
  Parts, EnclaveBackend, Act, ◌>>=◌, ◌>>◌, return, fail, lift, map_io, name_in, set_identity,
}
use ndn_mobile.Identity.Owner.{validity_secs, self_cert_name}
use ndn_mobile.Identity.Load.{
  NdnEnrollConfig, NdnEnrolledIdentity, enrolling, view, install, config_of,
}

unfoldable pub signed_or_failed : List ℕ → Text ⊎ List ℕ
signed_or_failed [] = inl (codes "enclave refused or unavailable")
signed_or_failed (b ∷ sig) = inr (b ∷ sig)

-- `sign` of `CallbackEnclaveBackend`.
unfoldable pub backend_sign : EnclaveBackend → List ℕ → Text ⊎ List ℕ
backend_sign enclave region = signed_or_failed (enclave.sign_raw region)

module _ (p : Parts) where
  open p use {lib, keys}
  open lib use {Name}

  unfoldable pub available : EnclaveBackend → Act p (List ℕ)
  available enclave s =
      if not enclave.is_available
      then fail p (identity (codes "enclave key not available (biometry / keystore)")) s
      else return p enclave.public_key s

  unfoldable pub non_empty : List ℕ → Act p (List ℕ)
  non_empty [] = fail p (identity (codes "enclave returned no public key"))
  non_empty (b ∷ pubkey) = return p (b ∷ pubkey)

  -- Named by the time in milliseconds.
  unfoldable pub fresh_key_name : Name → Act p Name
  fresh_key_name id_name = do
    now ← lift p keys.clock
    return p (keys.append_version (lib.append id_name (codes "KEY")) (now / 1000000 % 2 ^ 64))

  unfoldable pub enroll_with_token_enclave :
      NdnEnrollConfig → Text → EnclaveBackend → Act p NdnEnrolledIdentity
  enroll_with_token_enclave config token enclave = do
    cfg ← config_of p config
    pubkey ← available enclave
    key_name ← fresh_key_name cfg.identity
    let custodial = p.enclave_custodian (backend_sign enclave) config.identity key_name pubkey
    enrolled ← enrolling p (enroll_token_custodian_conn lib keys cfg custodial token)
    install p enrolled
    return p (view p enrolled [])

  -- The certificate goes to the host; the core keeps the one that it had.
  unfoldable pub generate_identity_enclave : Text → EnclaveBackend → Act p NdnEnrolledIdentity
  generate_identity_enclave name enclave = do
    id_name ← name_in p name
    found ← available enclave
    pubkey ← non_empty found
    key_name ← fresh_key_name id_name
    let custodial = p.enclave_custodian (backend_sign enclave) name key_name pubkey
    now ← lift p keys.clock
    let now_ns = now % 2 ^ 64
    let cert_name = self_cert_name p key_name
    cert_wire ←
        map_io p (λ e. identity (codes "enclave self-cert failed: " ++ e))
          (p.encode_cert cert_name pubkey (keys.custodian_signer custodial) now_ns
            (until_ns now_ns validity_secs))
    set_identity p (keys.custodian_certified cert_name custodial)
    return p (record {
      key_name = p.to_string key_name;
      cert_name = p.to_string cert_name;
      certificate = some cert_wire;
      safebag = [];
    })

  -- Here too.
  unfoldable pub load_identity_enclave : Text → Text → EnclaveBackend → Act p Bool
  load_identity_enclave key_name cert_name enclave = do
    kname ← name_in p key_name
    cname ← name_in p cert_name
    found ← available enclave
    pubkey ← non_empty found
    set_identity p (
        keys.custodian_certified cname
          (p.enclave_custodian (backend_sign enclave) key_name kname pubkey))
    return p true
