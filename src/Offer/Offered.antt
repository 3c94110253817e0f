-- ===== src/Offer/Offered.antt =====
-- Which offers the board has: those of the latest calls.
use ndn_mobile.Prelude.{
  ℕ, ◌≡◌, refl, sym, ap, ◌∙◌, Bool-cases, Option, none, some, List, [], ◌∷◌, inl, inr,
  if◌then◌else◌, null, length,
}
use ndn_mobile.Text.{Text, same}
use ndn_mobile.Text.Order.{same_iff}
use ndn_mobile.Text.Map.{lookup, insert, IsAscending, lookup-insert, lookup-remove}
use ndn_mobile.Offer.{Library, OfferBoard, OfferEntry, rebuild_manifest, internal_content_prefix}
use ndn_mobile.Offer.Calls.{
  Call, add, add_file, add_file_streamed, take_back, call, calls, serve_prepared, ok, add_offer,
  add_offer_file, add_offer_file_streamed, add_streamed, remove_offer, removing,
}
use ndn_mobile.Offer.Manifest.{IsBoard, call-IsBoard}

module _ (lib : Library) where
  open lib use {Name}

  -- The name, the type and the size that a listing shows.
  abbrev pub Listing : Type 0
  Listing = Text × Text × ℕ

  abbrev pub listing : Option (OfferEntry lib) → Option Listing
  listing none = none
  listing (some e) = some (e.display_name, e.mime, e.size)

  abbrev given : Text → Text → Option Listing → Listing → Option Listing
  given id j old new = if null j then old else if same j id then some new else old

  abbrev after : Text → Option Listing → Call lib → Option Listing
  after id old (add now j display_name mime content) =
      given id j old (display_name, mime, length content)
  after id old (add_file now j display_name mime file size) =
      given id j old (display_name, mime, size)
  after id old (add_file_streamed now j display_name mime file size) =
      given id j old (display_name, mime, size)
  after id old (take_back now j) = if same j id then none else old

  -- What the latest call about an id leaves, by the calls alone; a call to add with no id counts for
  -- nothing.
  abbrev pub offered : Text → Option Listing → List (Call lib) → Option Listing
  offered id old [] = old
  offered id old (c ∷ cs) = offered id (after id old c) cs

  listing-insert :
      (id j : Text) (e : OfferEntry lib) (m : List (Text × OfferEntry lib)) (old : Option Listing)
      → listing (lookup id m) ≡ old
      → listing (lookup id (insert j e m))
        ≡ (if same j id then some (e.display_name, e.mime, e.size) else old)
  listing-insert id j e m old h =
      rw (lookup-insert j id e m)
        (elim (Bool-cases (same j id)) [ inl k ↦ rw k refl | inr k ↦ rw k h ])

  removed-listing :
      (now : ℕ) (id j : Text) (b : OfferBoard lib) (old : Option Listing)
      (o : Option (OfferEntry lib))
      → IsAscending b.offers
      → lookup j b.offers ≡ o
      → listing (lookup id b.offers) ≡ old
      → listing (lookup id (removing lib now j o b).1.offers) ≡ (if same j id then none else old)
  unfolding removing rebuild_manifest
  removed-listing now id j b old none s l h = elim (Bool-cases (same j id)) [
    | inl k ↦ rw k (ap listing (ap (λ t. lookup t b.offers) (sym ((same_iff j id).0 k)) ∙ l))
    | inr k ↦ rw k h
  ]
  removed-listing now id j b old (some e) s l h =
      rw (lookup-remove j id b.offers s)
        (elim (Bool-cases (same j id)) [ inl k ↦ rw k refl | inr k ↦ rw k h ])

  module _ (prefix : Name) (parses : lib.parse internal_content_prefix ≡ some prefix) where
    call-listing :
        (id : Text) (old : Option Listing) (c : Call lib) (b : OfferBoard lib)
        → IsAscending b.offers
        → listing (lookup id b.offers) ≡ old
        → listing (lookup id (call lib c b).offers) ≡ after id old c
    unfolding call add_offer add_offer_file add_offer_file_streamed add_streamed remove_offer
        serve_prepared ok rebuild_manifest
    call-listing id old (add now j display_name mime content) b s h = elim (Bool-cases (null j)) [
      | inl n ↦ rw (n, call, add_offer) h
      | inr n ↦ rw (n, call, add_offer) (listing-insert id j _ b.offers old h)
    ]
    call-listing id old (add_file now j display_name mime file size) b s h =
        elim (Bool-cases (null j)) [
          | inl n ↦ rw (n, call, add_offer_file) h
          | inr n ↦ rw (n, call, add_offer_file) (listing-insert id j _ b.offers old h)
        ]
    call-listing id old (add_file_streamed now j display_name mime file size) b s h =
        elim (Bool-cases (null j)) [
          | inl n ↦ rw (n, call, add_offer_file_streamed) h
          | inr n ↦
              rw (n, parses, call, add_offer_file_streamed) (listing-insert id j _ b.offers old h)
        ]
    call-listing id old (take_back now j) b s h =
        removed-listing now id j b old (lookup j b.offers) s refl h

    -- After any calls on a board, the offers listed are those of the latest call about each id: the
    -- display name, the type and the size that it gave, or nothing once it is removed; calls that
    -- are refused for an empty id count for nothing. The name of the internal content prefix parses.
    pub calls-listing :
        (id : Text) (cs : List (Call lib)) (b : OfferBoard lib)
        → IsBoard lib b
        → listing (lookup id (calls lib cs b).offers) ≡ offered id (listing (lookup id b.offers)) cs
    calls-listing id [] b i = refl
    calls-listing id (c ∷ cs) b i =
        calls-listing id cs (call lib c b) (call-IsBoard lib c b i)
        ∙ ap (λ old. offered id old cs)
            (call-listing id (listing (lookup id b.offers)) c b i.ascending refl)
