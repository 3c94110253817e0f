-- ===== src/Enroll/Identity.antt =====
-- Enrolled identities: how each kind of key comes to one, and `generate_identity`.
use ndn_mobile.Prelude.{
  ℕ, ◌+◌, ◌*◌, ◌-◌, ◌/◌, ◌%◌, ◌^◌, min, Bool, true, false, Option, none, some, List, ◌⊎◌,
}
use ndn_mobile.Text.{Text, codes}
use ndn_mobile.Enroll.{
  key, cert, M, ◌>>=◌, return, map_err, map_io, ok_or, lift, PinRequest, Library, EnrollConfig,
}
use ndn_mobile.Enroll.Exchange.{run_ndncert_token_on, run_ndncert}

-- What the security library does with keys.
pub record Keys (lib : Library) : Type 1 where
  -- `EcdsaP256Signer` and `Ed25519Signer`.
  pub Ecdsa : Type 0
  pub Ed25519 : Type 0
  pub generate_ecdsa : lib.Name → lib.World → (Text ⊎ Ecdsa) × lib.World
  pub ecdsa_to_pkcs8 : Ecdsa → Text ⊎ List ℕ
  pub ecdsa_from_pkcs8 : List ℕ → lib.Name → Text ⊎ Ecdsa
  pub ecdsa_with_cert_name : lib.Name → Ecdsa → Ecdsa
  pub ecdsa_signer : Ecdsa → lib.Signer
  pub generate_ed25519 : lib.Name → lib.World → (Text ⊎ Ed25519) × lib.World
  pub public_key : Ed25519 → Option (List ℕ)
  pub encode_cert_data :
      lib.Name → List ℕ → Ed25519 → (from until : ℕ) → lib.World → (Text ⊎ List ℕ) × lib.World
  pub ed25519_to_pkcs8 : Ed25519 → Text ⊎ List ℕ
  pub ed25519_from_pkcs8 : List ℕ → lib.Name → Text ⊎ Ed25519
  pub ed25519_with_cert_name : lib.Name → Ed25519 → Ed25519
  pub ed25519_signer : Ed25519 → lib.Signer
  -- `CustodianSigner`, for one custodian, key id and public key.
  pub Custodial : Type 0
  pub custodian_key_name : Custodial → lib.Name
  pub custodian_signer : Custodial → lib.Signer
  pub custodian_certified : lib.Name → Custodial → lib.Signer
  -- The clock, in nanoseconds since 1970, and the version component.
  pub clock : lib.World → ℕ × lib.World
  pub append_version : lib.Name → ℕ → lib.Name

pub record EnrolledIdentity (lib : Library) : Type 0 where
  pub signer : lib.Signer
  pub key_name : lib.Name
  pub cert_name : lib.Name
  pub certificate : Option (List ℕ)
  pub exportable : Option (List ℕ)

unfoldable pub saturated : ℕ → ℕ
saturated n = min n (2 ^ 64 - 1)

unfoldable pub until_ns : ℕ → ℕ → ℕ
until_ns now_ns validity_secs = saturated (now_ns + saturated (validity_secs * 1000000000))

module _ (lib : Library) (keys : Keys lib) where
  open lib use {World, Name, Signer}
  open keys use {Ecdsa, Ed25519, Custodial}

  unfoldable pub from_custodian : Signer → Name → Name → Option (List ℕ) → EnrolledIdentity lib
  from_custodian signer key_name cert_name certificate = record {
    signer = signer;
    key_name = key_name;
    cert_name = cert_name;
    certificate = certificate;
    exportable = none;
  }

  unfoldable pub is_exportable : EnrolledIdentity lib → Bool
  is_exportable id = elim id.exportable [ none ↦ false | some pkcs8 ↦ true ]

  unfoldable pub new_key_name : Name → M World Name
  new_key_name identity = do
    now ← lift keys.clock
    return (keys.append_version (lib.append identity (codes "KEY")) (now / 1000000 % 2 ^ 64))

  -- The issued name on a fresh software signer.
  unfoldable pub stamp : Ecdsa → Name → Name × Option (List ℕ) → M World (EnrolledIdentity lib)
  stamp ecdsa key_name (cert_name, certificate) = do
    pkcs8 ← map_err key (keys.ecdsa_to_pkcs8 ecdsa)
    restored ← map_err key (keys.ecdsa_from_pkcs8 pkcs8 key_name)
    let stamped = keys.ecdsa_with_cert_name cert_name restored
    exportable ← map_err key (keys.ecdsa_to_pkcs8 stamped)
    return (record {
      signer = keys.ecdsa_signer stamped;
      key_name = key_name;
      cert_name = cert_name;
      certificate = certificate;
      exportable = some exportable;
    })

  unfoldable pub enroll_pin :
      EnrollConfig lib → (PinRequest → World → Text × World) → M World (EnrolledIdentity lib)
  enroll_pin cfg pin_cb = do
    key_name ← new_key_name cfg.identity
    ecdsa ← map_io key (keys.generate_ecdsa key_name)
    issued ← run_ndncert lib cfg key_name (keys.ecdsa_signer ecdsa) pin_cb
    stamp ecdsa key_name issued

  unfoldable pub enroll_token : EnrollConfig lib → Text → M World (EnrolledIdentity lib)
  enroll_token cfg token = do
    key_name ← new_key_name cfg.identity
    ecdsa ← map_io key (keys.generate_ecdsa key_name)
    issued ← run_ndncert_token_on lib cfg key_name (keys.ecdsa_signer ecdsa) token
    stamp ecdsa key_name issued

  -- The consumer is over the connection that is given, and so is the world.
  unfoldable pub enroll_token_conn : EnrollConfig lib → Text → M World (EnrolledIdentity lib)
  enroll_token_conn cfg token = do
    key_name ← new_key_name cfg.identity
    ecdsa ← map_io key (keys.generate_ecdsa key_name)
    issued ← run_ndncert_token_on lib cfg key_name (keys.ecdsa_signer ecdsa) token
    stamp ecdsa key_name issued

  unfoldable pub certified : Custodial → Name × Option (List ℕ) → EnrolledIdentity lib
  certified custodial (cert_name, certificate) = record {
    signer = keys.custodian_certified cert_name custodial;
    key_name = keys.custodian_key_name custodial;
    cert_name = cert_name;
    certificate = certificate;
    exportable = none;
  }

  unfoldable pub enroll_pin_custodian :
      EnrollConfig lib
      → Custodial
      → (PinRequest → World → Text × World)
      → M World (EnrolledIdentity lib)
  enroll_pin_custodian cfg custodial pin_cb = do
    issued ←
        run_ndncert lib cfg (keys.custodian_key_name custodial) (keys.custodian_signer custodial)
          pin_cb
    return (certified custodial issued)

  unfoldable pub enroll_token_custodian :
      EnrollConfig lib → Custodial → Text → M World (EnrolledIdentity lib)
  enroll_token_custodian cfg custodial token = do
    issued ←
        run_ndncert_token_on lib cfg (keys.custodian_key_name custodial)
          (keys.custodian_signer custodial) token
    return (certified custodial issued)

  unfoldable pub enroll_token_custodian_conn :
      EnrollConfig lib → Custodial → Text → M World (EnrolledIdentity lib)
  enroll_token_custodian_conn cfg custodial token = do
    issued ←
        run_ndncert_token_on lib cfg (keys.custodian_key_name custodial)
          (keys.custodian_signer custodial) token
    return (certified custodial issued)

  unfoldable pub generate_identity : Name → ℕ → M World (EnrolledIdentity lib)
  generate_identity name validity_secs = do
    key_name ← new_key_name name
    generated ← map_io key (keys.generate_ed25519 key_name)
    pubkey ← ok_or (keys.public_key generated) (key (codes "generated key has no public key"))
    now ← lift keys.clock
    let now_ns = now % 2 ^ 64
    cert_wire ←
        map_io cert
          (keys.encode_cert_data key_name pubkey generated now_ns (until_ns now_ns validity_secs))
    pkcs8 ← map_err key (keys.ed25519_to_pkcs8 generated)
    restored ← map_err key (keys.ed25519_from_pkcs8 pkcs8 key_name)
    return (record {
      signer = keys.ed25519_signer (keys.ed25519_with_cert_name key_name restored);
      key_name = key_name;
      cert_name = key_name;
      certificate = some cert_wire;
      exportable = some pkcs8;
    })
