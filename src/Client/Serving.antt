-- ===== src/Client/Serving.antt =====
-- What the client serves to other nodes over the connection of its identity core: its `serve`, and
-- `serve_remote_signer`.
use ndn_mobile.Prelude.{ℕ, Bool, true, Option, List, ◌⊎◌}
use ndn_mobile.Text.{Text}
use ndn_mobile.Types.{NdnError, engine}
use ndn_mobile.Offer
use ndn_mobile.Identity.{Parts, Act, ◌>>=◌, return, map_io, name_in}
use ndn_mobile.Identity.Objects.{Publishing}
use ndn_mobile.Identity.Responder.{Gate}
use ndn_mobile.Identity.Serving
use ndn_mobile.Identity.Serving.{Turn}
use ndn_mobile.Client.{Fetching, NdnClient, Call, on_core}

module _ (p : Parts) (offers : Offer.Library) (f : Fetching p) (o : Publishing p) where
  open p use {lib}
  open lib use {World, Name}

  -- `NdnInterestHandler`: what the host answers to a name.
  abbrev pub InterestHandler : Type 0
  InterestHandler = Text → World → Option (List ℕ) × World

  unfoldable pub producing : Text → InterestHandler → Act p Bool
  producing prefix handler = do
    name ← name_in p prefix
    served ← map_io p engine (o.serve name (λ n. handler (p.to_string n)))
    return p true

  unfoldable pub serve : Text → InterestHandler → Call p offers f Bool
  serve prefix handler = on_core p offers f (producing prefix handler)

  -- With the replies that were sent, newest first.
  unfoldable pub serve_remote_signer :
      (gate : Gate p)
      → Text
      → List (Turn p gate)
      → (Text ⊎ Unit {0})
      → NdnClient p offers f
      → ((NdnError ⊎ Bool) × List (Name × List ℕ)) × NdnClient p offers f
  serve_remote_signer gate prefix turns closed c =
      let (a, r) = Serving.serve_remote_signer p gate prefix turns closed c.core in
      ((a, r.sent), record c { core = r.core })
