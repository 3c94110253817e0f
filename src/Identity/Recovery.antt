-- ===== src/Identity/Recovery.antt =====
-- Making an identity recoverable, restoring it, and revoking it.
use ndn_mobile.Prelude.{
  ℕ, ◌+◌, ◌*◌, ◌/◌, ◌%◌, ◌^◌, ◌==◌, if◌then◌else◌, Bool, List, [], ◌∷◌, ◌++◌, ◌⊎◌, inl, inr, length,
}
use ndn_mobile.Text.{Text, codes}
use ndn_mobile.Text.Print.{decimal}
use ndn_mobile.Types.{identity}
use ndn_mobile.Enroll.Hex.{hex_encode}
use ndn_mobile.Identity.{
  Parts, Act, ◌>>=◌, ◌>>◌, return, fail, lift, map_err, map_io, ok_or, name_in, set_identity,
}
use ndn_mobile.Identity.Owner.{loaded_identity}

-- Ten years.
abbrev pub ten_years_ns : ℕ
ten_years_ns = 10 * 365 * 24 * 3600 * 1000000000

pub record NdnRecoveredIdentity : Type 0 where
  pub key_name : Text
  pub cert_name : Text
  pub safebag : List ℕ
  pub bundle : List ℕ

pub record NdnRevocation : Type 0 where
  pub revoked : Text
  pub reason : Text
  pub revoked_at_ms : ℕ
  pub self_revocation : Bool

-- What the identity and security libraries do for recovery.
pub record Recoveries (p : Parts) : Type 1 where
  pub random : (bytes : ℕ) → p.lib.World → (Text ⊎ List ℕ) × p.lib.World
  pub ed25519_from_seed : List ℕ → p.lib.Name → p.keys.Ed25519
  pub seed_to_pkcs8 : List ℕ → Text ⊎ List ℕ
  pub recovery_key_name : p.lib.Name
  pub public_key_bytes : p.keys.Ed25519 → List ℕ
  -- `CallbackRecoverySigner` as a signer: its key name and the host's answers.
  pub of_callback : p.lib.Name → (List ℕ → Text ⊎ List ℕ) → p.lib.Signer
  pub KeyChain : Type 0
  pub into_keychain : p.Principal → KeyChain
  -- `KeyChain::from_parts` over a manager that has the one signer.
  pub from_parts : p.lib.Signer → (id_name key_name : p.lib.Name) → KeyChain
  pub Recoverable : Type 0
  pub create : KeyChain → (rk : List ℕ) → Text ⊎ Recoverable
  pub recover_from_bundle :
      (bundle : List ℕ) → KeyChain → p.lib.Signer → p.lib.World → (Text ⊎ Recoverable) × p.lib.World
  pub export_recovery_bundle : Recoverable → List ℕ
  pub Revocation : Type 0
  pub self_revoke : KeyChain → (reason : Text) → (now_ms : ℕ) → Text ⊎ Revocation
  pub encode_revocation : Revocation → List ℕ
  pub decode_revocation : List ℕ → Text ⊎ Revocation
  pub verify_revocation :
      Revocation → (signer_pubkey : List ℕ) → p.lib.World → (◌⊎◌ {0, 0} Text Unit) × p.lib.World
  pub revocation_view : Revocation → NdnRevocation

module _ (p : Parts) (r : Recoveries p) where
  open p use {lib, keys, bags}

  -- `try_into` an array of 32 bytes.
  unfoldable pub of_length : Text → List ℕ → Act p (List ℕ)
  of_length what bytes s =
      if length bytes == 32
      then return p bytes s
      else fail p
          (identity (
            codes "recovery "
            ++ what
            ++ codes " must be 32 bytes (Ed25519), got "
            ++ decimal (length bytes)))
          s

  unfoldable pub recovery_public_key : List ℕ → Act p (List ℕ)
  recovery_public_key recovery_seed = do
    seed ← of_length (codes "seed") recovery_seed
    return p (r.public_key_bytes (r.ed25519_from_seed seed r.recovery_key_name))

  unfoldable pub make_recoverable : List ℕ → Act p (List ℕ)
  make_recoverable recovery_pubkey = do
    rk ← of_length (codes "key") recovery_pubkey
    principal ← loaded_identity p
    recoverable ← map_err p identity (r.create (r.into_keychain principal) rk)
    return p (r.export_recovery_bundle recoverable)

  unfoldable pub non_empty : List ℕ → Text ⊎ List ℕ
  non_empty [] = inl (codes "recovery signer refused (empty signature)")
  non_empty (b ∷ sig) = inr (b ∷ sig)

  -- `sign_sync` of `CallbackRecoverySigner`.
  unfoldable pub callback_sign : (List ℕ → List ℕ) → List ℕ → Text ⊎ List ℕ
  callback_sign callback region = non_empty (callback region)

  unfoldable pub random_bytes : ℕ → Act p (List ℕ)
  random_bytes n = map_io p (λ e. identity (codes "rng: " ++ e)) (r.random n)

  -- A new operational key, recovered by the recovery signer, stored and loaded.
  unfoldable pub restore_with :
      (bundle : List ℕ)
      → lib.Signer
      → (identity_name : Text) → (persist_password : List ℕ) → Act p NdnRecoveredIdentity
  restore_with bundle recovery_signer identity_name persist_password = do
    id_name ← name_in p identity_name
    key_id ← random_bytes 8
    key_name ←
        ok_or p (identity (codes "could not build key name"))
          (p.parse (identity_name ++ codes "/KEY/" ++ hex_encode key_id))
    op_seed ← random_bytes 32
    let op = r.ed25519_from_seed op_seed key_name
    pkcs8 ← map_err p (λ e. identity (codes "pkcs8: " ++ e)) (r.seed_to_pkcs8 op_seed)
    pubkey ← ok_or p (identity (codes "operational key exposes no public key")) (keys.public_key op)
    cert_name ←
        ok_or p (identity (codes "could not build cert name"))
          (p.parse (p.to_string key_name ++ codes "/self/v=1"))
    now ← lift p keys.clock
    let now_ns = now % 2 ^ 64
    cert_wire ←
        map_io p identity
          (keys.encode_cert_data cert_name pubkey op now_ns ((now_ns + ten_years_ns) % 2 ^ 64))
    let signer = keys.ed25519_signer op
    recovered ←
        map_io p identity
          (r.recover_from_bundle bundle (r.from_parts signer id_name key_name) recovery_signer)
    safebag ←
        map_io p (λ e. identity (codes "safebag: " ++ e))
          (bags.encrypt cert_wire pkcs8 persist_password)
    set_identity p signer
    return p (record {
      key_name = p.to_string key_name;
      cert_name = p.to_string cert_name;
      safebag = p.encode_bag safebag;
      bundle = r.export_recovery_bundle recovered;
    })

  unfoldable pub restore_identity :
      (bundle recovery_seed : List ℕ)
      → Text
      → (persist_password : List ℕ) → Act p NdnRecoveredIdentity
  restore_identity bundle recovery_seed identity_name persist_password = do
    seed ← of_length (codes "seed") recovery_seed
    restore_with bundle (keys.ed25519_signer (r.ed25519_from_seed seed r.recovery_key_name))
        identity_name persist_password

  unfoldable pub restore_identity_remote :
      (bundle : List ℕ)
      → Text
      → (persist_password : List ℕ) → (List ℕ → List ℕ)
      → Act p NdnRecoveredIdentity
  restore_identity_remote bundle identity_name persist_password callback =
      restore_with bundle (r.of_callback r.recovery_key_name (callback_sign callback)) identity_name
        persist_password

  unfoldable pub revoke_identity : Text → Act p (List ℕ)
  revoke_identity reason = do
    principal ← loaded_identity p
    now ← lift p keys.clock
    rec_ ←
        map_err p identity
          (r.self_revoke (r.into_keychain principal) reason (now / 1000000 % 2 ^ 64))
    return p (r.encode_revocation rec_)

  unfoldable pub verify_revocation : (wire signer_pubkey : List ℕ) → Act p NdnRevocation
  verify_revocation wire signer_pubkey = do
    rec_ ←
        map_err p (λ e. identity (codes "malformed revocation: " ++ e)) (r.decode_revocation wire)
    verified ←
        map_io p (λ e. identity (codes "revocation did not verify: " ++ e))
          (r.verify_revocation rec_ signer_pubkey)
    return p (r.revocation_view rec_)
