-- ===== src/Mobile/Bulk.antt =====
-- Bulk faces of the mobile engine, and the prefixes that are pinned to them.
use ndn_mobile.Prelude.{ℕ, Bool, ◌==◌, if◌then◌else◌, Option, none, some, List, [], ◌∷◌}
use ndn_mobile.Mobile.{
  Library, FaceKind, udp, wifi_direct, infra_tunnel, network, multicast_strategy, measured_strategy,
  direct_multicast, bulk_udp, add_face, remove_face, add_nexthop, set_strategy, keepalive,
  MobileEngine, emit, alloc_id,
}
use ndn_mobile.Mobile.Faces.{ensure_mesh_strategy}

module _ (lib : Library) where
  open lib use {Name, SocketAddr, Iface}

  unfoldable pub pin : Name → ℕ → List (Name × ℕ) → List (Name × ℕ)
  pin prefix id [] = (prefix, id) ∷ []
  pin prefix id ((name, old) ∷ pins) =
      if lib.same_name name prefix then (name, id) ∷ pins else (name, old) ∷ pin prefix id pins

  -- With the socket taken over.
  unfoldable pub mount_bulk :
      Name → ℕ → SocketAddr → FaceKind → ℕ → MobileEngine lib → MobileEngine lib
  mount_bulk prefix fd peer kind id e =
      let e = emit lib (add_face id (bulk_udp fd peer kind) (network e.generation)) e in
      let e = emit lib (add_nexthop prefix id (e.link_profile kind)) e in
      let e = emit lib (set_strategy prefix measured_strategy) e in
      let e = record e { bulk_pinned = pin prefix id e.bulk_pinned } in
      emit lib (keepalive id peer (network e.generation)) e

  -- `adopts` is whether the socket is taken over; the id is allocated all the same.
  unfoldable pub attach_udp_bulk_face :
      Bool → Name → ℕ → SocketAddr → FaceKind → MobileEngine lib → Option ℕ × MobileEngine lib
  attach_udp_bulk_face adopts prefix fd peer kind e =
      let (id, e) = alloc_id lib e in
      if adopts then (some id, mount_bulk prefix fd peer kind id e) else (none, e)

  unfoldable pub attach_ndp_face :
      Bool → Name → ℕ → SocketAddr → MobileEngine lib → Option ℕ × MobileEngine lib
  attach_ndp_face adopts prefix fd peer e = attach_udp_bulk_face adopts prefix fd peer udp e

  unfoldable pub attach_wifi_direct_face :
      Bool → Name → ℕ → SocketAddr → MobileEngine lib → Option ℕ × MobileEngine lib
  attach_wifi_direct_face adopts prefix fd peer e =
      attach_udp_bulk_face adopts prefix fd peer wifi_direct e

  -- `bound` is the descriptor of the socket, where binding it succeeds.
  unfoldable pub attach_infra_tunnel_face :
      Option ℕ → Bool → Name → SocketAddr → MobileEngine lib → Option ℕ × MobileEngine lib
  attach_infra_tunnel_face none adopts prefix peer e = (none, e)
  attach_infra_tunnel_face (some fd) adopts prefix peer e =
      attach_udp_bulk_face adopts prefix fd peer infra_tunnel e

  unfoldable pub attach_infra_tunnel_fd :
      Bool → Name → ℕ → SocketAddr → MobileEngine lib → Option ℕ × MobileEngine lib
  attach_infra_tunnel_fd adopts prefix fd peer e =
      attach_udp_bulk_face adopts prefix fd peer infra_tunnel e

  unfoldable pub mount_group : Iface → ℕ → MobileEngine lib → MobileEngine lib
  mount_group local_ipv4 id e =
      let e = emit lib (add_face id (direct_multicast local_ipv4) (network e.generation)) e in
      ensure_mesh_strategy lib (emit lib (add_nexthop lib.root id 0) e)

  -- `opens` is whether the multicast socket opens.
  unfoldable pub attach_wifi_direct_multicast_face :
      Bool → Iface → MobileEngine lib → Option ℕ × MobileEngine lib
  attach_wifi_direct_multicast_face opens local_ipv4 e =
      let (id, e) = alloc_id lib e in
      if opens then (some id, mount_group local_ipv4 id e) else (none, e)

  -- The pins that stay.
  unfoldable pub retain : ℕ → List (Name × ℕ) → List (Name × ℕ)
  retain id [] = []
  retain id ((name, fid) ∷ pins) =
      let rest = retain id pins in if fid == id then rest else (name, fid) ∷ rest

  -- The prefixes of those that go, in one order of the many that a hash map may have; each is reverted
  -- in the same way.
  unfoldable pub reverted : ℕ → List (Name × ℕ) → List Name
  reverted id [] = []
  reverted id ((name, fid) ∷ pins) =
      let rest = reverted id pins in if fid == id then name ∷ rest else rest

  unfoldable pub revert : List Name → MobileEngine lib → MobileEngine lib
  revert [] e = e
  revert (prefix ∷ prefixes) e =
      revert prefixes (emit lib (set_strategy prefix multicast_strategy) e)

  unfoldable pub detach_ndp_face : ℕ → MobileEngine lib → MobileEngine lib
  detach_ndp_face id e =
      let e = emit lib (remove_face id) e in
      revert (reverted id e.bulk_pinned) (record e { bulk_pinned = retain id e.bulk_pinned })
