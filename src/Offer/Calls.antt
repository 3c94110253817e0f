-- ===== src/Offer/Calls.antt =====
-- The calls of the offer board.
use ndn_mobile.Prelude.{
  ℕ, Bool, true, false, if◌then◌else◌, Option, none, some, List, [], ◌∷◌, ◌⊎◌, inl, inr, null,
  length,
}
use ndn_mobile.Text.{Text, codes}
use ndn_mobile.Text.Map.{lookup, insert, remove}
use ndn_mobile.Types.{NdnError, engine, invalid_name}
use ndn_mobile.Offer.{
  Library, signed_object, raw_content, OfferEntry, OfferBoard, offers_json, rebuild_manifest,
  offer_chunk, internal_content_prefix,
}

module _ (lib : Library) where
  open lib use {Name, File, Prepared}

  unfoldable pub serve_prepared :
      ℕ → Text → Text → Text → Name → Prepared → ℕ → OfferBoard lib → Text × OfferBoard lib
  serve_prepared now file_id display_name mime object_name prepared size b =
      let entry : OfferEntry lib = record {
        display_name = display_name;
        mime = mime;
        name = object_name;
        size = size;
        guard = signed_object prepared;
      } in
      (
        lib.to_string object_name,
        rebuild_manifest lib now (record b { offers = insert file_id entry b.offers }),
      )

  unfoldable pub file_name : OfferBoard lib → Text → Name
  file_name b file_id = lib.append (lib.append b.identity_prefix (codes "file")) file_id

  abbrev pub Added : Type 0
  Added = (NdnError ⊎ Text) × OfferBoard lib

  unfoldable pub no_id : NdnError
  no_id = engine (codes "offer file_id must not be empty")

  unfoldable pub ok : Text × OfferBoard lib → Added
  ok (name, b) = (inr name, b)

  unfoldable pub add_offer : ℕ → Text → Text → Text → List ℕ → OfferBoard lib → Added
  add_offer now file_id display_name mime content b =
      if null file_id
      then (inl no_id, b)
      else let object_name = file_name b file_id in
        let prepared = lib.build now object_name content offer_chunk in
        ok (serve_prepared now file_id display_name mime object_name prepared (length content) b)

  unfoldable pub add_offer_file : ℕ → Text → Text → Text → File → ℕ → OfferBoard lib → Added
  add_offer_file now file_id display_name mime file size b =
      if null file_id
      then (inl no_id, b)
      else let object_name = file_name b file_id in
        let prepared = lib.build_from_file now object_name file size offer_chunk in
        ok (serve_prepared now file_id display_name mime object_name prepared size b)

  unfoldable pub add_streamed :
      ℕ → Text → Text → Text → File → ℕ → Option Name → OfferBoard lib → Added
  add_streamed now file_id display_name mime file size none b =
      (inl (invalid_name internal_content_prefix), b)
  add_streamed now file_id display_name mime file size (some prefix) b =
      let public_name = file_name b file_id in
      let prepared = lib.build_from_file now (lib.append prefix file_id) file size offer_chunk in
      let entry : OfferEntry lib = record {
        display_name = display_name;
        mime = mime;
        name = public_name;
        size = size;
        guard = raw_content prepared;
      } in
      (
        inr (lib.to_string public_name),
        rebuild_manifest lib now (record b { offers = insert file_id entry b.offers }),
      )

  unfoldable pub add_offer_file_streamed :
      ℕ → Text → Text → Text → File → ℕ → OfferBoard lib → Added
  add_offer_file_streamed now file_id display_name mime file size b =
      if null file_id
      then (inl no_id, b)
      else add_streamed now file_id display_name mime file size (lib.parse internal_content_prefix)
          b

  unfoldable pub removing :
      ℕ → Text → Option (OfferEntry lib) → OfferBoard lib → Bool × OfferBoard lib
  removing now file_id none b = (false, b)
  removing now file_id (some e) b =
      (true, rebuild_manifest lib now (record b { offers = remove file_id b.offers }))

  unfoldable pub remove_offer : ℕ → Text → OfferBoard lib → Bool × OfferBoard lib
  remove_offer now file_id b = removing now file_id (lookup file_id b.offers) b

  unfoldable pub list_offers : OfferBoard lib → Text
  list_offers b = offers_json lib b.node_prefix b.offers

  -- The calls that reach the board, with the time of each.
  pub data Call : Type 0 where
    add : ℕ → Text → Text → Text → List ℕ → Call
    add_file : ℕ → Text → Text → Text → File → ℕ → Call
    add_file_streamed : ℕ → Text → Text → Text → File → ℕ → Call
    take_back : ℕ → Text → Call

  unfoldable pub call : Call → OfferBoard lib → OfferBoard lib
  call (add now file_id display_name mime content) b =
      (add_offer now file_id display_name mime content b).1
  call (add_file now file_id display_name mime file size) b =
      (add_offer_file now file_id display_name mime file size b).1
  call (add_file_streamed now file_id display_name mime file size) b =
      (add_offer_file_streamed now file_id display_name mime file size b).1
  call (take_back now file_id) b = (remove_offer now file_id b).1

  abbrev pub calls : List Call → OfferBoard lib → OfferBoard lib
  calls [] b = b
  calls (c ∷ cs) b = calls cs (call c b)
