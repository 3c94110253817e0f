-- ===== src/Mobile/Routes.antt =====
-- Routes of the mobile engine.
use ndn_mobile.Prelude.{
  ℕ, Bool, true, false, not, ◌==◌, if◌then◌else◌, Option, none, some, List, [], ◌∷◌,
}
use ndn_mobile.Text.{Text, codes, same}
use ndn_mobile.Mobile.{
  Library, FaceKind, wifi_aware, bluetooth, udp, multicast_strategy, add_nexthop, set_strategy,
  add_region, MobileEngine, emit,
}
use ndn_mobile.Mobile.Faces.{PeerRef}

module _ (lib : Library) where
  open lib use {Name}

  unfoldable pub add_route : Name → ℕ → ℕ → MobileEngine lib → MobileEngine lib
  add_route prefix face_id cost e = emit lib (add_nexthop prefix face_id cost) e

  unfoldable pub route_to_peer : Name → PeerRef lib → ℕ → MobileEngine lib → MobileEngine lib
  route_to_peer prefix peer cost e = emit lib (add_nexthop prefix peer.id cost) e

  unfoldable pub route_to_multicast : Name → MobileEngine lib → Bool × MobileEngine lib
  route_to_multicast prefix e =
      if e.multicast_face_id == 0
      then (false, e)
      else (true, emit lib (add_nexthop prefix e.multicast_face_id 0) e)

  -- By the face's name in the discovery dataset.
  unfoldable pub kind_of : Text → Option FaceKind
  kind_of face =
      if same face (codes "wifi-aware")
      then some wifi_aware
      else if same face (codes "ble")
      then some bluetooth
      else if same face (codes "multicast")
      then some udp
      else if same face (codes "udp")
      then some udp
      else none

  unfoldable pub id_in : {A : Type 0} → Option (ℕ × A) → Option ℕ
  id_in none = none
  id_in (some (id, backend)) = some id

  unfoldable pub radio_id : FaceKind → MobileEngine lib → Option ℕ
  radio_id wifi_aware e = id_in e.nan
  radio_id bluetooth e = id_in e.ble
  radio_id udp e = if not (e.multicast_face_id == 0) then some e.multicast_face_id else none
  radio_id _ e = none

  unfoldable pub pin_of : Name → List (Name × ℕ) → Option ℕ
  pin_of prefix [] = none
  pin_of prefix ((name, id) ∷ pins) =
      if lib.same_name name prefix then some id else pin_of prefix pins

  -- `contains_key`.
  unfoldable pub contains : Option ℕ → Bool
  contains none = false
  contains (some id) = true

  unfoldable pub note_radio : Name → FaceKind → Option ℕ → MobileEngine lib → MobileEngine lib
  note_radio prefix kind none e = e
  note_radio prefix kind (some id) e =
      let e = emit lib (add_nexthop prefix id (e.link_profile kind)) e in
      if contains (pin_of prefix e.bulk_pinned)
      then e
      else emit lib (set_strategy prefix multicast_strategy) e

  unfoldable pub note_kind : Name → Option FaceKind → MobileEngine lib → MobileEngine lib
  note_kind prefix none e = e
  note_kind prefix (some kind) e = note_radio prefix kind (radio_id kind e) e

  unfoldable pub note_peer_route : Name → Text → MobileEngine lib → MobileEngine lib
  note_peer_route prefix face e = note_kind prefix (kind_of face) e

  unfoldable pub add_producer_region : Name → MobileEngine lib → MobileEngine lib
  add_producer_region prefix e = emit lib (add_region prefix) e
