-- ===== src/Mobile/Allocation.antt =====
-- Face ids of the mobile engine: no call gives one back.
use ndn_mobile.Prelude.{ℕ, ◌≤◌, ◌≡◌, refl, arith, Bool, Option, List, [], ◌∷◌}
use ndn_mobile.Text.{Text}
use ndn_mobile.Mobile.{Library, PeerSpec, MobileEngine, emit, alloc_id, network}
use ndn_mobile.Mobile.Faces.{
  new_app_handle, mount_app_fd, register_prefix, suspend_network_faces, resume_network_faces,
  resume_multicast, resume_peers, resume_nan, resume_ble, build_peer_face, attach_wifi_aware,
  attach_ble, id_of, ensure_mesh_strategy,
}
use ndn_mobile.Mobile.Routes.{note_peer_route, note_kind, note_radio, add_producer_region}
use ndn_mobile.Mobile.Bulk.{
  mount_bulk, attach_udp_bulk_face, attach_ndp_face, attach_wifi_direct_face,
  attach_infra_tunnel_fd, mount_group, attach_wifi_direct_multicast_face, revert, reverted,
  detach_ndp_face,
}

module _ (lib : Library) where
  open lib use {Name, SocketAddr, Iface}

  -- As many ids are allocated afterwards, or more.
  abbrev pub Grows : MobileEngine lib → MobileEngine lib → Type 0
  Grows e e' = e.allocated ≤ e'.allocated

  pub new_app_handle-Grows : (e : MobileEngine lib) → Grows e (new_app_handle lib e).1
  unfolding new_app_handle alloc_id emit
  new_app_handle-Grows e = omega arith

  pub mount_app_fd-Grows :
      (adopts : Bool) (fd : ℕ) (e : MobileEngine lib) → Grows e (mount_app_fd lib adopts fd e).1
  unfolding mount_app_fd alloc_id emit
  mount_app_fd-Grows adopts fd e = ground arith

  pub suspend-Grows : (e : MobileEngine lib) → Grows e (suspend_network_faces lib e)
  unfolding suspend_network_faces emit
  suspend-Grows e = omega arith

  resume_multicast_lem :
      (opens : Bool) (iface : Option Iface) (e : MobileEngine lib)
      → (resume_multicast lib opens iface e).allocated ≡ e.allocated
  unfolding resume_multicast emit
  resume_multicast_lem opens iface e = ground arith

  resume_peers_lem :
      (connects : ℕ → PeerSpec lib → Bool) (peers : List (ℕ × PeerSpec lib)) (e : MobileEngine lib)
      → (resume_peers lib connects peers e).allocated ≡ e.allocated
  unfolding resume_peers build_peer_face emit
  resume_peers_lem connects [] e = refl
  resume_peers_lem connects ((id, spec) ∷ peers) e = ground (
    arith,
    resume_peers_lem connects peers (build_peer_face lib connects id spec (network e.generation) e),
  )

  resume_nan_lem :
      (o : Option (ℕ × lib.NanBackend)) (e : MobileEngine lib)
      → (resume_nan lib o e).allocated ≡ e.allocated
  unfolding resume_nan emit
  resume_nan_lem o e = ground arith

  resume_ble_lem :
      (o : Option (ℕ × lib.AdvBackend)) (e : MobileEngine lib)
      → (resume_ble lib o e).allocated ≡ e.allocated
  unfolding resume_ble emit
  resume_ble_lem o e = ground arith

  pub resume-Grows :
      (opens : Bool) (connects : ℕ → PeerSpec lib → Bool) (e : MobileEngine lib)
      → Grows e (resume_network_faces lib opens connects e)
  unfolding resume_network_faces
  resume-Grows opens connects e =
      let e1 = resume_multicast lib opens e.multicast_iface e in
      let e2 = resume_peers lib connects e1.network_peers e1 in
      let e3 = resume_nan lib e2.nan e2 in
      omega (
        arith,
        resume_multicast_lem opens e.multicast_iface e,
        resume_peers_lem connects e1.network_peers e1,
        resume_nan_lem e2.nan e2,
        resume_ble_lem e3.ble e3,
      )

  id_of-Grows : {A : Type 0} (o : Option (ℕ × A)) (e : MobileEngine lib) → Grows e (id_of lib o e).1
  unfolding id_of alloc_id
  id_of-Grows o e = ground arith

  pub attach_wifi_aware-Grows :
      (backend : lib.NanBackend) (e : MobileEngine lib)
      → Grows e (attach_wifi_aware lib backend e).1
  unfolding attach_wifi_aware emit ensure_mesh_strategy
  attach_wifi_aware-Grows backend e = omega (arith, id_of-Grows e.nan e)

  pub attach_ble-Grows :
      (backend : lib.AdvBackend) (e : MobileEngine lib) → Grows e (attach_ble lib backend e).1
  unfolding attach_ble emit ensure_mesh_strategy
  attach_ble-Grows backend e = omega (arith, id_of-Grows e.ble e)

  pub attach_ndp_face-Grows :
      (adopts : Bool) (prefix : Name) (fd : ℕ) (peer : SocketAddr) (e : MobileEngine lib)
      → Grows e (attach_ndp_face lib adopts prefix fd peer e).1
  unfolding attach_ndp_face attach_udp_bulk_face mount_bulk alloc_id emit
  attach_ndp_face-Grows adopts prefix fd peer e = ground arith

  pub attach_wifi_direct_face-Grows :
      (adopts : Bool) (prefix : Name) (fd : ℕ) (peer : SocketAddr) (e : MobileEngine lib)
      → Grows e (attach_wifi_direct_face lib adopts prefix fd peer e).1
  unfolding attach_wifi_direct_face attach_udp_bulk_face mount_bulk alloc_id emit
  attach_wifi_direct_face-Grows adopts prefix fd peer e = ground arith

  pub attach_infra_tunnel_fd-Grows :
      (adopts : Bool) (prefix : Name) (fd : ℕ) (peer : SocketAddr) (e : MobileEngine lib)
      → Grows e (attach_infra_tunnel_fd lib adopts prefix fd peer e).1
  unfolding attach_infra_tunnel_fd attach_udp_bulk_face mount_bulk alloc_id emit
  attach_infra_tunnel_fd-Grows adopts prefix fd peer e = ground arith

  pub attach_wifi_direct_multicast_face-Grows :
      (opens : Bool) (local_ipv4 : Iface) (e : MobileEngine lib)
      → Grows e (attach_wifi_direct_multicast_face lib opens local_ipv4 e).1
  unfolding attach_wifi_direct_multicast_face mount_group ensure_mesh_strategy alloc_id emit
  attach_wifi_direct_multicast_face-Grows opens local_ipv4 e = ground arith

  revert_lem : (ps : List Name) (e : MobileEngine lib) → (revert lib ps e).allocated ≡ e.allocated
  unfolding revert emit
  revert_lem [] e = refl
  revert_lem (prefix ∷ ps) e = revert_lem ps _

  pub detach_ndp_face-Grows : (id : ℕ) (e : MobileEngine lib) → Grows e (detach_ndp_face lib id e)
  unfolding detach_ndp_face emit
  detach_ndp_face-Grows id e = omega (arith, revert_lem (reverted lib id e.bulk_pinned))

  pub note_peer_route-Grows :
      (prefix : Name) (face : Text) (e : MobileEngine lib)
      → Grows e (note_peer_route lib prefix face e)
  unfolding note_peer_route note_kind note_radio emit
  note_peer_route-Grows prefix face e = ground arith

  pub add_producer_region-Grows :
      (prefix : Name) (e : MobileEngine lib) → Grows e (add_producer_region lib prefix e)
  unfolding add_producer_region emit
  add_producer_region-Grows prefix e = omega arith

  pub register_prefix-Grows :
      (prefix : Name) (id : ℕ) (e : MobileEngine lib) → Grows e (register_prefix lib prefix id e)
  unfolding register_prefix emit
  register_prefix-Grows prefix id e = omega arith
