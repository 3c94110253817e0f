-- ===== src/Enroll/Safebag.antt =====
-- Identities on disk: `to_safebag` and `load_identity`.
use ndn_mobile.Prelude.{ℕ, List, ◌⊎◌, ◌++◌}
use ndn_mobile.Text.{Text, codes}
use ndn_mobile.Enroll.{
  key, no_certificate, not_exportable, safebag, M, ◌>>=◌, return, throw, map_err, map_io, ok_or,
  Library,
}
use ndn_mobile.Enroll.Identity.{Keys, EnrolledIdentity}

pub data Algorithm : Type 0 where
  ed25519 : Algorithm
  ecdsa_p256 : Algorithm
  other : Text → Algorithm

pub record Bags (lib : Library) : Type 1 where
  pub Bag : Type 0
  pub encrypt : (certificate pkcs8 password : List ℕ) → lib.World → (Text ⊎ Bag) × lib.World
  pub decrypt_pkcs8 : Bag → List ℕ → Text ⊎ List ℕ
  pub algorithm : Bag → List ℕ → Text ⊎ Algorithm

module _ (lib : Library) (keys : Keys lib) (bags : Bags lib) where
  open lib use {World, Name, Signer}
  open bags use {Bag}

  unfoldable pub to_safebag : List ℕ → EnrolledIdentity lib → M World Bag
  to_safebag password id = do
    pkcs8 ← ok_or id.exportable not_exportable
    certificate ← ok_or id.certificate no_certificate
    map_io safebag (bags.encrypt certificate pkcs8 password)

  unfoldable pub restore : List ℕ → Name → Algorithm → M World Signer
  restore pkcs8 key_name ed25519 = do
    restored ← map_err key (keys.ed25519_from_pkcs8 pkcs8 key_name)
    return (keys.ed25519_signer restored)
  restore pkcs8 key_name ecdsa_p256 = do
    restored ← map_err key (keys.ecdsa_from_pkcs8 pkcs8 key_name)
    return (keys.ecdsa_signer restored)
  restore pkcs8 key_name (other oid) = throw (key (codes "unsupported key algorithm " ++ oid))

  unfoldable pub load_identity : Bag → List ℕ → Name → M World Signer
  load_identity bag password key_name = do
    pkcs8 ← map_err safebag (bags.decrypt_pkcs8 bag password)
    alg ← map_err safebag (bags.algorithm bag password)
    restore pkcs8 key_name alg
