-- ===== src/Identity/Objects.antt =====
-- Objects that the core publishes, and what it starts an offer board with.
use ndn_mobile.Prelude.{ℕ, ◌==◌, if◌then◌else◌, Bool, true, Option, none, List, ◌⊎◌, inl, inr}
use ndn_mobile.Text.{Text, codes}
use ndn_mobile.Types.{identity, engine}
use ndn_mobile.Identity.{Parts, Act, ◌>>=◌, return, map_io, ok_or, name_in, current_signer}
use ndn_mobile.Identity.Owner.{loaded_identity, principal_cert_wire}

-- What the app library does with objects.
pub record Publishing (p : Parts) : Type 1 where
  pub Prepared : Type 0
  pub build : p.lib.Name → List ℕ → (chunk_size : ℕ) → Prepared
  -- The wire for an Interest's name, where the object has one.
  pub answer_interest :
      Prepared
      → p.lib.Name
      → Option p.lib.Signer
      → p.lib.World
      → (Text ⊎ Option (List ℕ)) × p.lib.World
  -- `DemuxConnection::serve` with a handler, until the connection closes.
  pub serve :
      p.lib.Name
      → (p.lib.Name → p.lib.World → Option (List ℕ) × p.lib.World)
      → p.lib.World
      → (◌⊎◌ {0, 0} Text Unit) × p.lib.World

module _ (p : Parts) (o : Publishing p) where
  open p use {lib}
  open lib use {World, Name, Signer}

  unfoldable pub responded : Text ⊎ Option (List ℕ) → Option (List ℕ)
  responded (inl e) = none
  responded (inr wire) = wire

  unfoldable pub handler : o.Prepared → Option Signer → Name → World → Option (List ℕ) × World
  handler prepared signer name w =
      let (r, w') = o.answer_interest prepared name signer w in (responded r, w')

  unfoldable pub chunk_or_default : ℕ → ℕ
  chunk_or_default chunk_size = if chunk_size == 0 then 8192 else chunk_size

  unfoldable pub publish_object : Text → List ℕ → ℕ → Act p Bool
  publish_object name content chunk_size = do
    parsed ← name_in p name
    signer ← current_signer p
    served ←
        map_io p engine
          (o.serve parsed (handler (o.build parsed content (chunk_or_default chunk_size)) signer))
    return p true

module _ (p : Parts) where
  open p use {lib}

  -- The signer, the certificate and the identity's name for `OfferBoard::new`.
  unfoldable pub start_offer_board : Act p (lib.Signer × (List ℕ × lib.Name))
  start_offer_board = do
    loaded ← current_signer p
    signer ← ok_or p (identity (codes "no identity loaded — load one before sharing")) loaded
    principal ← loaded_identity p
    cert_wire ← principal_cert_wire p
    return p (signer, (cert_wire, p.name_of principal))
