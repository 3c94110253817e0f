-- ===== src/Mobile/Pins/Run.antt =====
-- The calls of the mobile engine, and the pins after them.
use ndn_mobile.Prelude.{
  ℕ, ◌≡◌, ◌↔◌, refl, Bool, true, false, ◌==◌, Bool-cases, Option, none, some, List, [], ◌∷◌, inl,
  inr,
}
use ndn_mobile.Mobile.{
  Library, FaceKind, Face, add_face, add_nexthop, network, nan_coord, ble_adv, direct_multicast,
  nan_coord_mtu, MobileEngine, emit, alloc_id,
}
use ndn_mobile.Mobile.Faces.{
  ensure_mesh_strategy, id_of, attach_wifi_aware, attach_ble, new_app_handle, mount_app_fd,
  register_prefix, suspend_network_faces,
}
use ndn_mobile.Mobile.Routes.{
  note_kind, note_peer_route, radio_id, kind_of, route_to_multicast, add_route, route_to_peer,
  add_producer_region,
}
use ndn_mobile.Mobile.Bulk.{
  attach_udp_bulk_face, attach_ndp_face, attach_wifi_direct_face, attach_infra_tunnel_face,
  attach_infra_tunnel_fd, mount_group, attach_wifi_direct_multicast_face,
}
use ndn_mobile.Mobile.Pins.{
  IsPinned, Keeps, kept, stays, resume-Keeps, note_radio-IsPinned, ensure_mesh-IsPinned,
  mount_bulk-IsPinned, detach-IsPinned,
}
use ndn_mobile.Mobile.Calls.{
  Call, app_handle, app_fd, registers, route, peer_route, multicast_route, noted, region, suspend,
  resume, radio, adv_radio, ndp, direct, tunnel, tunnel_fd, direct_group, detach, step, run,
}

module _ (lib : Library) where
  open lib use {Name, same_name}

  -- The call does not bind a bulk face to the root.
  abbrev pub IsUnrooted : Call lib → Type 0
  IsUnrooted (ndp adopts prefix fd peer) = same_name prefix lib.root ≡ false
  IsUnrooted (direct adopts prefix fd peer) = same_name prefix lib.root ≡ false
  IsUnrooted (tunnel bound adopts prefix peer) = same_name prefix lib.root ≡ false
  IsUnrooted (tunnel_fd adopts prefix fd peer) = same_name prefix lib.root ≡ false
  IsUnrooted _ = Unit

  abbrev pub AreUnrooted : List (Call lib) → Type 0
  AreUnrooted [] = Unit
  AreUnrooted (c ∷ cs) = IsUnrooted c × AreUnrooted cs

  mount_app_fd-Keeps :
      (adopts : Bool) (fd : ℕ) (e : MobileEngine lib) → Keeps lib e (mount_app_fd lib adopts fd e).1
  unfolding mount_app_fd alloc_id emit
  mount_app_fd-Keeps true fd e = record { strategies = λ p. refl; pins = refl }
  mount_app_fd-Keeps false fd e = record { strategies = λ p. refl; pins = refl }

  id_of-Keeps :
      {A : Type 0} → (o : Option (ℕ × A)) (e : MobileEngine lib) → Keeps lib e (id_of lib o e).1
  unfolding id_of alloc_id
  id_of-Keeps (some b) e = stays lib e
  id_of-Keeps none e = record { strategies = λ p. refl; pins = refl }

  multicast_route-Keeps :
      (prefix : Name) (e : MobileEngine lib) → Keeps lib e (route_to_multicast lib prefix e).1
  unfolding route_to_multicast emit
  multicast_route-Keeps prefix e = elim (Bool-cases (e.multicast_face_id == 0)) [
    | inl h ↦ simp h (stays lib e)
    | inr h ↦ simp h (record { strategies = λ p. refl; pins = refl })
  ]

  -- A face with its route, and nothing else.
  abbrev mounted : MobileEngine lib → ℕ → Face lib → MobileEngine lib
  mounted e id face =
      emit lib (add_nexthop lib.root id 0) (emit lib (add_face id face (network e.generation)) e)

  mounted-Keeps :
      (e : MobileEngine lib) (id : ℕ) (face : Face lib) → Keeps lib e (mounted e id face)
  unfolding emit
  mounted-Keeps e id face = record { strategies = λ p. refl; pins = refl }

  module _ (same_iff : (a b : Name) → (same_name a b ≡ true) ↔ (a ≡ b)) where
    mounted-IsPinned :
        (e : MobileEngine lib) (id : ℕ) (face : Face lib)
        → IsPinned lib e
        → IsPinned lib (ensure_mesh_strategy lib (mounted e id face))
    mounted-IsPinned e id face i =
        ensure_mesh-IsPinned lib same_iff _ (kept lib e _ (mounted-Keeps e id face) i)

    attach_wifi_aware-IsPinned :
        (backend : lib.NanBackend) (e : MobileEngine lib)
        → IsPinned lib e
        → IsPinned lib (attach_wifi_aware lib backend e).1
    unfolding attach_wifi_aware
    attach_wifi_aware-IsPinned backend e i =
        let a = id_of lib e.nan e in
        let k =
          mounted-IsPinned a.1 a.0 (nan_coord backend nan_coord_mtu)
            (kept lib e _ (id_of-Keeps e.nan e) i) in
        record { measured = k.measured; unrooted = k.unrooted; distinct = k.distinct }

    attach_ble-IsPinned :
        (backend : lib.AdvBackend) (e : MobileEngine lib)
        → IsPinned lib e
        → IsPinned lib (attach_ble lib backend e).1
    unfolding attach_ble
    attach_ble-IsPinned backend e i =
        let a = id_of lib e.ble e in
        let k = mounted-IsPinned a.1 a.0 (ble_adv backend) (kept lib e _ (id_of-Keeps e.ble e) i) in
        record { measured = k.measured; unrooted = k.unrooted; distinct = k.distinct }

    alloc_id-IsPinned : (e : MobileEngine lib) → IsPinned lib e → IsPinned lib (alloc_id lib e).1
    unfolding alloc_id
    alloc_id-IsPinned e i = record {
      measured = i.measured;
      unrooted = i.unrooted;
      distinct = i.distinct;
    }

    attach_bulk-IsPinned :
        (adopts : Bool) (prefix : Name) (fd : ℕ) (peer : lib.SocketAddr) (kind : FaceKind)
        (e : MobileEngine lib)
        → same_name prefix lib.root ≡ false
        → IsPinned lib e
        → IsPinned lib (attach_udp_bulk_face lib adopts prefix fd peer kind e).1
    unfolding attach_udp_bulk_face
    attach_bulk-IsPinned true prefix fd peer kind e n i =
        mount_bulk-IsPinned lib same_iff prefix fd peer kind _ _ n (alloc_id-IsPinned e i)
    attach_bulk-IsPinned false prefix fd peer kind e n i = alloc_id-IsPinned e i

    attach_tunnel-IsPinned :
        (bound : Option ℕ) (adopts : Bool) (prefix : Name) (peer : lib.SocketAddr)
        (e : MobileEngine lib)
        → same_name prefix lib.root ≡ false
        → IsPinned lib e
        → IsPinned lib (attach_infra_tunnel_face lib bound adopts prefix peer e).1
    unfolding attach_infra_tunnel_face
    attach_tunnel-IsPinned none adopts prefix peer e n i = i
    attach_tunnel-IsPinned (some fd) adopts prefix peer e n i =
        attach_bulk-IsPinned adopts prefix fd peer _ e n i

    attach_group-IsPinned :
        (opens : Bool) (local_ipv4 : lib.Iface) (e : MobileEngine lib)
        → IsPinned lib e
        → IsPinned lib (attach_wifi_direct_multicast_face lib opens local_ipv4 e).1
    unfolding attach_wifi_direct_multicast_face mount_group emit
    attach_group-IsPinned true local_ipv4 e i =
        mounted-IsPinned (alloc_id lib e).1 (alloc_id lib e).0 (direct_multicast local_ipv4)
          (alloc_id-IsPinned e i)
    attach_group-IsPinned false local_ipv4 e i = alloc_id-IsPinned e i

    note_kind-IsPinned :
        (prefix : Name) (kind : Option FaceKind) (e : MobileEngine lib)
        → IsPinned lib e
        → IsPinned lib (note_kind lib prefix kind e)
    unfolding note_kind
    note_kind-IsPinned prefix none e i = i
    note_kind-IsPinned prefix (some kind) e i =
        note_radio-IsPinned lib same_iff prefix kind (radio_id lib kind e) e i

    step-IsPinned :
        (c : Call lib) (e : MobileEngine lib)
        → IsUnrooted c
        → IsPinned lib e
        → IsPinned lib (step lib c e)
    unfolding step new_app_handle register_prefix add_route route_to_peer add_producer_region
        suspend_network_faces note_peer_route attach_ndp_face attach_wifi_direct_face
        attach_infra_tunnel_fd alloc_id emit
    step-IsPinned app_handle e u i = kept lib e _ (record { strategies = λ p. refl; pins = refl }) i
    step-IsPinned (app_fd adopts fd) e u i = kept lib e _ (mount_app_fd-Keeps adopts fd e) i
    step-IsPinned (registers prefix id) e u i =
        kept lib e _ (record { strategies = λ p. refl; pins = refl }) i
    step-IsPinned (route prefix id cost) e u i =
        kept lib e _ (record { strategies = λ p. refl; pins = refl }) i
    step-IsPinned (peer_route prefix peer cost) e u i =
        kept lib e _ (record { strategies = λ p. refl; pins = refl }) i
    step-IsPinned (multicast_route prefix) e u i = kept lib e _ (multicast_route-Keeps prefix e) i
    step-IsPinned (noted prefix face) e u i = note_kind-IsPinned prefix (kind_of lib face) e i
    step-IsPinned (region prefix) e u i =
        kept lib e _ (record { strategies = λ p. refl; pins = refl }) i
    step-IsPinned suspend e u i = kept lib e _ (record { strategies = λ p. refl; pins = refl }) i
    step-IsPinned (resume opens connects) e u i = kept lib e _ (resume-Keeps lib opens connects e) i
    step-IsPinned (radio backend) e u i = attach_wifi_aware-IsPinned backend e i
    step-IsPinned (adv_radio backend) e u i = attach_ble-IsPinned backend e i
    step-IsPinned (ndp adopts prefix fd peer) e u i =
        attach_bulk-IsPinned adopts prefix fd peer _ e u i
    step-IsPinned (direct adopts prefix fd peer) e u i =
        attach_bulk-IsPinned adopts prefix fd peer _ e u i
    step-IsPinned (tunnel bound adopts prefix peer) e u i =
        attach_tunnel-IsPinned bound adopts prefix peer e u i
    step-IsPinned (tunnel_fd adopts prefix fd peer) e u i =
        attach_bulk-IsPinned adopts prefix fd peer _ e u i
    step-IsPinned (direct_group opens local_ipv4) e u i = attach_group-IsPinned opens local_ipv4 e i
    step-IsPinned (detach id) e u i = detach-IsPinned lib same_iff id e i

    -- Where names are equal exactly when the library says so, and no call binds a bulk face to the root:
    -- if each prefix runs the measured strategy exactly when it is pinned, with the root not pinned and
    -- no prefix pinned twice, then that is still so after any sequence of calls, whatever the outside
    -- answers to each.
    pub run-IsPinned :
        (cs : List (Call lib)) (e : MobileEngine lib)
        → AreUnrooted cs
        → IsPinned lib e
        → IsPinned lib (run lib cs e)
    run-IsPinned [] e u i = i
    run-IsPinned (c ∷ cs) e u i = run-IsPinned cs (step lib c e) u.1 (step-IsPinned c e u.0 i)
