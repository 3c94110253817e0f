-- ===== src/Identity/Owner.antt =====
-- The principal that the loaded identity stands for.
use ndn_mobile.Prelude.{ℕ, ◌*◌, ◌%◌, ◌^◌, if◌then◌else◌, Option, none, some, List, [], ◌∷◌, ◌++◌}
use ndn_mobile.Text.{Text, codes, same}
use ndn_mobile.Types.{identity}
use ndn_mobile.Enroll.Identity.{until_ns}
use ndn_mobile.Identity.{
  Parts, Act, ◌>>=◌, return, lift, map_err, map_io, ok_or, get, loaded_signer,
}

-- Ten years.
abbrev pub validity_secs : ℕ
validity_secs = 10 * 365 * 24 * 60 * 60

-- What stands before the first occurrence of `pattern`, and what stands after it.
unfoldable pub strip_prefix : Text → Text → Option Text
strip_prefix [] text = some text
strip_prefix (c ∷ pattern) [] = none
strip_prefix (c ∷ pattern) (d ∷ text) =
    let rest = strip_prefix pattern text in if same (c ∷ []) (d ∷ []) then rest else none

unfoldable pub before : ℕ → Option (Text × Text) → Option (Text × Text)
before c none = none
before c (some (id, rest)) = some (c ∷ id, rest)

unfoldable pub or_find : Option Text → Option (Text × Text) → Option (Text × Text)
or_find none later = later
or_find (some rest) later = some ([], rest)

unfoldable pub split_once : Text → Text → Option (Text × Text)
split_once [] pattern = or_find (strip_prefix pattern []) none
split_once (c ∷ text) pattern =
    or_find (strip_prefix pattern (c ∷ text)) (before c (split_once text pattern))

module _ (p : Parts) where
  open p use {lib, Principal}

  unfoldable pub parse_first : Option (Text × Text) → Option lib.Name
  parse_first none = none
  parse_first (some (id, rest)) = p.parse id

  unfoldable pub identity_of_key : lib.Name → Option lib.Name
  identity_of_key key_name = parse_first (split_once (p.to_string key_name) (codes "/KEY/"))

  unfoldable pub loaded_identity : Act p Principal
  loaded_identity = do
    signer ← loaded_signer p
    let key_name = p.key_name signer
    id_name ←
        ok_or p
          (identity (codes "key name " ++ p.to_string key_name ++ codes " has no /KEY/ component"))
          (identity_of_key key_name)
    map_err p identity (p.from_signer id_name key_name signer)

  unfoldable pub principal_did : Act p Text
  principal_did = do principal ← loaded_identity; return p (p.did principal)

  unfoldable pub principal_name : Act p Text
  principal_name = do principal ← loaded_identity; return p (p.to_string (p.name_of principal))

  unfoldable pub public_key_of : lib.Signer → Act p (List ℕ)
  public_key_of signer =
      ok_or p (identity (codes "loaded identity has no exportable public key"))
        (p.public_key signer)

  unfoldable pub principal_public_key : Act p (List ℕ)
  principal_public_key = do signer ← loaded_signer p; public_key_of signer

  unfoldable pub self_cert_name : lib.Name → lib.Name
  self_cert_name key_name = p.keys.append_version (lib.append key_name (codes "self")) 0

  unfoldable pub cert_name_or_self : lib.Name → Option lib.Name → lib.Name
  cert_name_or_self key_name none = self_cert_name key_name
  cert_name_or_self key_name (some cert_name) = cert_name

  -- A new certificate by the loaded key for itself.
  unfoldable pub self_cert : Act p (List ℕ)
  self_cert = do
    signer ← loaded_signer p
    pubkey ← public_key_of signer
    now ← lift p p.keys.clock
    let now_ns = now % 2 ^ 64
    map_io p (λ e. identity (codes "encode operator cert: " ++ e))
        (p.encode_cert (cert_name_or_self (p.key_name signer) (p.cert_name signer)) pubkey signer
          now_ns (until_ns now_ns validity_secs))

  unfoldable pub cert_or_self : Option (List ℕ) → Act p (List ℕ)
  cert_or_self (some cert_wire) = return p cert_wire
  cert_or_self none = self_cert

  unfoldable pub principal_cert_wire : Act p (List ℕ)
  principal_cert_wire = do cert_wire ← get p (λ s. s.cert_wire); cert_or_self cert_wire
