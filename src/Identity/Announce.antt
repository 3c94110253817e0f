-- ===== src/Identity/Announce.antt =====
-- Announcing a prefix to the gateway.
use ndn_mobile.Prelude.{ℕ, ◌+◌, ◌&&◌, leb, ltb, Bool, Option, none, some, List, [], ◌∷◌, ◌++◌, ◌⊎◌}
use ndn_mobile.Text.{Text, codes}
use ndn_mobile.Types.{identity, engine}
use ndn_mobile.RemoteSigner.{or_empty}
use ndn_mobile.Identity.{
  Parts, Act, ◌>>=◌, return, lift, map_err, map_io, get, name_in, loaded_signer,
}

-- Milliseconds.
abbrev pub announce_lifetime : ℕ
announce_lifetime = 10000

-- What the packet, configuration and app libraries do for a command.
pub record Commands (p : Parts) : Type 1 where
  pub Interest : Type 0
  pub Reply : Type 0
  -- `ControlParameters::encode` with the name alone.
  pub encode_params : p.lib.Name → List ℕ
  pub rib : List ℕ
  pub register : List ℕ
  pub from_components : List (List ℕ) → p.lib.Name
  pub random_reflexive_name : p.lib.World → p.lib.Name × p.lib.World
  -- `InterestBuilder`, fresh, with a lifetime and a reflexive name, signed by `sign_fallible` with the
  -- key locator's name.
  pub build :
      p.lib.Name
      → (lifetime : ℕ) → (reflexive : p.lib.Name) → (key_locator : Option p.lib.Name) → p.lib.Signer
      → p.lib.World
      → (Text ⊎ Interest) × p.lib.World
  -- `fetch_wire` while the demux serves the reflexive name with the content for the Interests under it.
  pub fetch_serving :
      (reflexive : p.lib.Name)
      → (body : List ℕ) → Interest
      → (timeout : ℕ) → p.lib.World
      → (Text ⊎ Reply) × p.lib.World
  pub content : Reply → Option (List ℕ)
  -- `ControlResponse::decode`, with the status code.
  pub decode_status : List ℕ → Text ⊎ ℕ

module _ (p : Parts) (c : Commands p) where
  open p use {lib}

  unfoldable pub command_name : lib.Name → lib.Name
  command_name prefix_name =
      c.from_components
        (codes "localhop" ∷ codes "nfd" ∷ c.rib ∷ c.register ∷ c.encode_params prefix_name ∷ [])

  unfoldable pub or_key_name : Option lib.Name → lib.Name → Option lib.Name
  or_key_name (some cert_name) key_name = some cert_name
  or_key_name none key_name = some key_name

  unfoldable pub is_ok : ℕ → Bool
  is_ok status_code = leb 200 status_code && ltb status_code 300

  unfoldable pub announce_prefix : Text → Act p Bool
  announce_prefix prefix = do
    prefix_name ← name_in p prefix
    signer ← loaded_signer p
    cert_wire ← get p (λ s. s.cert_wire)
    reflexive ← lift p c.random_reflexive_name
    wire ← map_io p identity (
        c.build (command_name prefix_name) announce_lifetime reflexive
          (or_key_name (p.cert_name signer) (p.key_name signer)) signer)
    reply ←
        map_io p (λ e. engine (codes "announce: no ControlResponse: " ++ e))
          (c.fetch_serving reflexive (or_empty p.remote cert_wire) wire (announce_lifetime + 1000))
    status_code ←
        map_err p (λ e. engine (codes "announce: bad ControlResponse: " ++ e))
          (c.decode_status (or_empty p.remote (c.content reply)))
    return p (is_ok status_code)
