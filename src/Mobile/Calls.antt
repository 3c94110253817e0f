-- ===== src/Mobile/Calls.antt =====
-- The methods of the mobile engine as calls, with what the outside answers to each.
use ndn_mobile.Prelude.{ℕ, Bool, List, [], ◌∷◌, Option}
use ndn_mobile.Text.{Text}
use ndn_mobile.Mobile.{Library, PeerSpec, MobileEngine}
use ndn_mobile.Mobile.Faces.{
  PeerRef, new_app_handle, mount_app_fd, register_prefix, suspend_network_faces,
  resume_network_faces, attach_wifi_aware, attach_ble,
}
use ndn_mobile.Mobile.Routes.{
  add_route, route_to_peer, route_to_multicast, note_peer_route, add_producer_region,
}
use ndn_mobile.Mobile.Bulk.{
  attach_ndp_face, attach_wifi_direct_face, attach_infra_tunnel_face, attach_infra_tunnel_fd,
  attach_wifi_direct_multicast_face, detach_ndp_face,
}

module _ (lib : Library) where
  open lib use {Name, SocketAddr, Iface, NanBackend, AdvBackend}

  pub data Call : Type 0 where
    app_handle : Call
    app_fd : (adopts : Bool) → (fd : ℕ) → Call
    registers : Name → (id : ℕ) → Call
    route : Name → (id cost : ℕ) → Call
    peer_route : Name → PeerRef lib → (cost : ℕ) → Call
    multicast_route : Name → Call
    noted : Name → (face : Text) → Call
    region : Name → Call
    suspend : Call
    resume : (opens : Bool) → (connects : ℕ → PeerSpec lib → Bool) → Call
    radio : NanBackend → Call
    adv_radio : AdvBackend → Call
    ndp : (adopts : Bool) → Name → (fd : ℕ) → SocketAddr → Call
    direct : (adopts : Bool) → Name → (fd : ℕ) → SocketAddr → Call
    tunnel : (bound : Option ℕ) → (adopts : Bool) → Name → SocketAddr → Call
    tunnel_fd : (adopts : Bool) → Name → (fd : ℕ) → SocketAddr → Call
    direct_group : (opens : Bool) → Iface → Call
    detach : (id : ℕ) → Call

  unfoldable pub step : Call → MobileEngine lib → MobileEngine lib
  step app_handle e = (new_app_handle lib e).1
  step (app_fd adopts fd) e = (mount_app_fd lib adopts fd e).1
  step (registers prefix id) e = register_prefix lib prefix id e
  step (route prefix id cost) e = add_route lib prefix id cost e
  step (peer_route prefix peer cost) e = route_to_peer lib prefix peer cost e
  step (multicast_route prefix) e = (route_to_multicast lib prefix e).1
  step (noted prefix face) e = note_peer_route lib prefix face e
  step (region prefix) e = add_producer_region lib prefix e
  step suspend e = suspend_network_faces lib e
  step (resume opens connects) e = resume_network_faces lib opens connects e
  step (radio backend) e = (attach_wifi_aware lib backend e).1
  step (adv_radio backend) e = (attach_ble lib backend e).1
  step (ndp adopts prefix fd peer) e = (attach_ndp_face lib adopts prefix fd peer e).1
  step (direct adopts prefix fd peer) e = (attach_wifi_direct_face lib adopts prefix fd peer e).1
  step (tunnel bound adopts prefix peer) e =
      (attach_infra_tunnel_face lib bound adopts prefix peer e).1
  step (tunnel_fd adopts prefix fd peer) e = (attach_infra_tunnel_fd lib adopts prefix fd peer e).1
  step (direct_group opens local_ipv4) e =
      (attach_wifi_direct_multicast_face lib opens local_ipv4 e).1
  step (detach id) e = detach_ndp_face lib id e

  abbrev pub run : List Call → MobileEngine lib → MobileEngine lib
  run [] e = e
  run (c ∷ cs) e = run cs (step c e)
