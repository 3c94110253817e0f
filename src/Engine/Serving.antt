-- ===== src/Engine/Serving.antt =====
-- What the engine object offers to other nodes: discovery, the offer board and object relays.
use ndn_mobile.Prelude.{ℕ, Bool, true, false, Option, none, some, List, ◌∷◌, ◌⊎◌, inl, inr}
use ndn_mobile.Text.{Text, codes}
use ndn_mobile.Types.{NdnError, engine}
use ndn_mobile.Discovery
use ndn_mobile.Mobile.{MobileEngine}
use ndn_mobile.Offer
use ndn_mobile.Offer.{OfferBoard}
use ndn_mobile.Offer.Calls
use ndn_mobile.Identity.Objects.{start_offer_board}
use ndn_mobile.Client.Board.{not_started, listed}
use ndn_mobile.Engine.Calls.{declare_region}
use ndn_mobile.Engine.Object.{Host, NdnEngine, Call, on_core, parsed}

module _ (h : Host) where
  open h use {mobile, texts, p, offers, fetching, same}
  open p use {lib}

  abbrev pub peers_dataset : Text
  peers_dataset = codes "/localhost/discovery/peers"

  unfoldable pub start_discovery : Text → Text → NdnEngine h → Bool × NdnEngine h
  start_discovery node_id label e = (
    true,
    record e {
      running = declare_region mobile texts node_id e.running;
      core = record e.core { world = h.serve_prefix peers_dataset e.core.world };
      discovery = some (Discovery.new node_id label);
    },
  )

  -- The board that replaces the one before, `now` being the version of its first objects.
  unfoldable pub opened :
      ℕ
      → Text
      → (NdnError ⊎ (lib.Signer × (List ℕ × lib.Name))) × NdnEngine h
      → (NdnError ⊎ OfferBoard offers) × NdnEngine h
  opened now node_id (inl error, e) = (inl error, e)
  opened now node_id (inr (signer, (cert_wire, identity_prefix)), e) =
      (Offer.new offers now (same.signer signer) cert_wire node_id (same.name identity_prefix), e)

  unfoldable pub placed :
      (NdnError ⊎ OfferBoard offers) × NdnEngine h → (NdnError ⊎ Bool) × NdnEngine h
  placed (inl error, e) = (inl error, e)
  placed (inr board, e) = (inr true, record e { offer_board = some board })

  unfoldable pub start_board : ℕ → Text → Call h Bool
  start_board now node_id e =
      let e = record e { running = declare_region mobile texts node_id e.running } in
      placed (opened now node_id (on_core h (start_offer_board p) e))

  unfoldable pub added : ℕ → Text → Text → Text → List ℕ → Option (OfferBoard offers) → Call h Text
  added now file_id display_name mime content none e = (inl (not_started p offers fetching same), e)
  added now file_id display_name mime content (some board) e =
      let (r, board) = Calls.add_offer offers now file_id display_name mime content board in
      (r, record e { offer_board = some board })

  unfoldable pub add_offer : ℕ → Text → Text → Text → List ℕ → Call h Text
  add_offer now file_id display_name mime content e =
      added now file_id display_name mime content e.offer_board e

  unfoldable pub removed : ℕ → Text → Option (OfferBoard offers) → NdnEngine h → Bool × NdnEngine h
  removed now file_id none e = (false, e)
  removed now file_id (some board) e =
      let (found, board) = Calls.remove_offer offers now file_id board in
      (found, record e { offer_board = some board })

  unfoldable pub remove_offer : ℕ → Text → NdnEngine h → Bool × NdnEngine h
  remove_offer now file_id e = removed now file_id e.offer_board e

  unfoldable pub list_offers : NdnEngine h → Text
  list_offers e = listed p offers fetching same e.offer_board

  unfoldable pub relayed :
      lib.Name → lib.Name → ℕ → lib.Signer → Option (MobileEngine mobile) → Call h Bool
  relayed public source size signer none e = (inl (engine (codes "engine shut down")), e)
  relayed public source size signer (some inner) e = (
    inr true,
    record e {
      relays =
          (record {
            public_name = public;
            source_prefix = source;
            size = size;
            chunk = 8192;
            signer = signer;
          })
          ∷ e.relays;
    },
  )

  unfoldable pub signed_by : lib.Name → lib.Name → ℕ → Option lib.Signer → Call h Bool
  signed_by public source size none e =
      (inl (engine (codes "no operator identity loaded — cannot sign relayed object")), e)
  signed_by public source size (some signer) e = relayed public source size signer e.running.inner e

  unfoldable pub register_object_relay : Text → Text → ℕ → Call h Bool
  register_object_relay public_name source_prefix size = parsed h public_name (λ public.
      parsed h source_prefix (λ source e. signed_by public source size e.core.identity e))
