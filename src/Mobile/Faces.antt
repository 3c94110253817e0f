-- ===== src/Mobile/Faces.antt =====
-- Faces of the mobile engine: handles of apps, suspend and resume, the radios.
use ndn_mobile.Prelude.{ℕ, suc, Bool, if◌then◌else◌, Option, none, some, List, [], ◌∷◌, map}
use ndn_mobile.Text.{Text}
use ndn_mobile.Mobile.{
  Library, Token, network, shutdown, multicast_strategy, PeerSpec, uri, in_proc, app_socket,
  udp_multicast, persistent_peer, nan_coord, ble_adv, add_face, add_nexthop, set_strategy, cancel,
  supervise, MobileEngine, emit, alloc_id, nan_coord_mtu,
}

module _ (lib : Library) where
  open lib use {Name, NanBackend, AdvBackend}

  -- The face id; the handle is the app library's.
  unfoldable pub new_app_handle : MobileEngine lib → ℕ × MobileEngine lib
  new_app_handle e = let (id, e) = alloc_id lib e in (id, emit lib (add_face id in_proc shutdown) e)

  -- `adopts` is whether the library takes the descriptor for a socket.
  unfoldable pub mount_app_fd : Bool → ℕ → MobileEngine lib → Option ℕ × MobileEngine lib
  mount_app_fd adopts fd e =
      let (id, e) = alloc_id lib e in
      if adopts then (some id, emit lib (add_face id (app_socket fd) shutdown) e) else (none, e)

  -- The connection that `new_registering_app_connection` gives, by its face.
  unfoldable pub register_prefix : Name → ℕ → MobileEngine lib → MobileEngine lib
  register_prefix prefix id e = emit lib (add_nexthop prefix id 0) e

  -- Every network face of this generation ends; the next ones get a new token.
  unfoldable pub suspend_network_faces : MobileEngine lib → MobileEngine lib
  suspend_network_faces e =
      let e = emit lib (cancel (network e.generation)) e in
      record e { generation = suc e.generation }

  -- The first attempt, which `connects` or not, and the task that goes on trying.
  unfoldable pub build_peer_face :
      (ℕ → PeerSpec lib → Bool) → ℕ → PeerSpec lib → Token → MobileEngine lib → MobileEngine lib
  build_peer_face connects id spec token e =
      let e =
        if connects id spec then emit lib (add_face id (persistent_peer spec) token) e else e in
      emit lib (supervise id spec token) e

  unfoldable pub resume_multicast : Bool → Option lib.Iface → MobileEngine lib → MobileEngine lib
  resume_multicast opens none e = e
  resume_multicast opens (some iface) e =
      if opens
      then emit lib (add_face e.multicast_face_id (udp_multicast iface) (network e.generation)) e
      else e

  unfoldable pub resume_peers :
      (ℕ → PeerSpec lib → Bool) → List (ℕ × PeerSpec lib) → MobileEngine lib → MobileEngine lib
  resume_peers connects [] e = e
  resume_peers connects ((id, spec) ∷ peers) e =
      resume_peers connects peers (build_peer_face connects id spec (network e.generation) e)

  unfoldable pub resume_nan : Option (ℕ × NanBackend) → MobileEngine lib → MobileEngine lib
  resume_nan none e = e
  resume_nan (some (id, backend)) e =
      emit lib (add_face id (nan_coord backend nan_coord_mtu) (network e.generation)) e

  unfoldable pub resume_ble : Option (ℕ × AdvBackend) → MobileEngine lib → MobileEngine lib
  resume_ble none e = e
  resume_ble (some (id, backend)) e =
      emit lib (add_face id (ble_adv backend) (network e.generation)) e

  -- `opens` is whether the multicast socket opens, `connects` which peers answer at once.
  unfoldable pub resume_network_faces :
      Bool → (ℕ → PeerSpec lib → Bool) → MobileEngine lib → MobileEngine lib
  resume_network_faces opens connects e =
      let e = resume_multicast opens e.multicast_iface e in
      let e = resume_peers connects e.network_peers e in
      let e = resume_nan e.nan e in resume_ble e.ble e

  pub record PeerRef : Type 0 where
    pub id : ℕ
    pub peer_uri : Text

  unfoldable pub peers : MobileEngine lib → List PeerRef
  peers e = map (λ p. record { id = p.0; peer_uri = uri lib p.1 }) e.network_peers

  unfoldable pub ensure_mesh_strategy : MobileEngine lib → MobileEngine lib
  ensure_mesh_strategy e = emit lib (set_strategy lib.root multicast_strategy) e

  -- The id that a radio has, or a new one.
  unfoldable pub id_of : {A : Type 0} → Option (ℕ × A) → MobileEngine lib → ℕ × MobileEngine lib
  id_of (some (id, backend)) e = (id, e)
  id_of none e = alloc_id lib e

  unfoldable pub attach_wifi_aware : NanBackend → MobileEngine lib → ℕ × MobileEngine lib
  attach_wifi_aware backend e =
      let (id, e) = id_of e.nan e in
      let e = emit lib (add_face id (nan_coord backend nan_coord_mtu) (network e.generation)) e in
      let e = ensure_mesh_strategy (emit lib (add_nexthop lib.root id 0) e) in
      (id, record e { nan = some (id, backend) })

  unfoldable pub attach_ble : AdvBackend → MobileEngine lib → ℕ × MobileEngine lib
  attach_ble backend e =
      let (id, e) = id_of e.ble e in
      let e = emit lib (add_face id (ble_adv backend) (network e.generation)) e in
      let e = ensure_mesh_strategy (emit lib (add_nexthop lib.root id 0) e) in
      (id, record e { ble = some (id, backend) })
