-- ===== src/Client/Board.antt =====
-- The client's offer board.
use ndn_mobile.Prelude.{ℕ, Bool, true, false, Option, none, some, List, ◌⊎◌, inl, inr}
use ndn_mobile.Text.{Text, codes}
use ndn_mobile.Types.{NdnError, engine}
use ndn_mobile.Offer
use ndn_mobile.Offer.{OfferBoard}
use ndn_mobile.Offer.Calls.{
  add_offer, add_offer_file, add_offer_file_streamed, remove_offer, list_offers,
}
use ndn_mobile.Identity.{Parts}
use ndn_mobile.Identity.Objects.{start_offer_board}
use ndn_mobile.Client.{Fetching, NdnClient, Call, on_core}

-- The names, signers and files of the two models of one library.
pub record Same (p : Parts) (offers : Offer.Library) : Type 0 where
  pub name : p.lib.Name → offers.Name
  pub signer : p.lib.Signer → offers.Signer
  pub file : (fd : ℕ) → offers.File

module _ (p : Parts) (offers : Offer.Library) (f : Fetching p) (same : Same p offers) where
  unfoldable pub not_started : NdnError
  not_started = engine (codes "offer board not started — call start_offer_board first")

  unfoldable pub placed :
      (NdnError ⊎ OfferBoard offers) × NdnClient p offers f
      → (NdnError ⊎ Bool) × NdnClient p offers f
  placed (inl e, c) = (inl e, c)
  placed (inr board, c) = (inr true, record c { offer_board = some board })

  -- The board that replaces the one before, `now` being the version of its first objects.
  unfoldable pub opening :
      ℕ
      → Text
      → (NdnError ⊎ (p.lib.Signer × (List ℕ × p.lib.Name))) × NdnClient p offers f
      → (NdnError ⊎ OfferBoard offers) × NdnClient p offers f
  opening now node_id (inl e, c) = (inl e, c)
  opening now node_id (inr (signer, (cert_wire, identity_prefix)), c) =
      (Offer.new offers now (same.signer signer) cert_wire node_id (same.name identity_prefix), c)

  unfoldable pub start_board : ℕ → Text → Call p offers f Bool
  start_board now node_id c =
      placed (opening now node_id (on_core p offers f (start_offer_board p) c))

  unfoldable pub on_board :
      {A : Type 0}
      → (OfferBoard offers → (NdnError ⊎ A) × OfferBoard offers)
      → Option (OfferBoard offers)
      → Call p offers f A
  on_board run none c = (inl not_started, c)
  on_board run (some board) c =
      let (r, board) = run board in (r, record c { offer_board = some board })

  unfoldable pub add : ℕ → Text → Text → Text → List ℕ → Call p offers f Text
  add now file_id display_name mime content c =
      on_board (add_offer offers now file_id display_name mime content) c.offer_board c

  unfoldable pub add_fd : ℕ → Text → Text → Text → ℕ → ℕ → Call p offers f Text
  add_fd now file_id display_name mime fd size c =
      on_board (add_offer_file offers now file_id display_name mime (same.file fd) size)
        c.offer_board c

  unfoldable pub add_fd_streamed : ℕ → Text → Text → Text → ℕ → ℕ → Call p offers f Text
  add_fd_streamed now file_id display_name mime fd size c =
      on_board (add_offer_file_streamed offers now file_id display_name mime (same.file fd) size)
        c.offer_board c

  unfoldable pub removed :
      ℕ → Text → Option (OfferBoard offers) → NdnClient p offers f → Bool × NdnClient p offers f
  removed now file_id none c = (false, c)
  removed now file_id (some board) c =
      let (found, board) = remove_offer offers now file_id board in
      (found, record c { offer_board = some board })

  unfoldable pub remove : ℕ → Text → NdnClient p offers f → Bool × NdnClient p offers f
  remove now file_id c = removed now file_id c.offer_board c

  unfoldable pub listed : Option (OfferBoard offers) → Text
  listed none = codes "{\"node\":\"\",\"offers\":[]}"
  listed (some board) = list_offers offers board

  unfoldable pub list : NdnClient p offers f → Text
  list c = listed c.offer_board
