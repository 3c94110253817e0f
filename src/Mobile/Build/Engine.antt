-- ===== src/Mobile/Build/Engine.antt =====
-- The build as a whole.
use ndn_mobile.Prelude.{
  ℕ, Bool, if◌then◌else◌, Option, none, some, List, [], ◌∷◌, ◌⊎◌, inl, inr, map,
}
use ndn_mobile.Text.{Text}
use ndn_mobile.Mobile.{
  Library, shutdown, in_proc, ipc_app, add_face, register_routing, spawn_tunnel, install_spans,
  MobileEngine, emit, alloc_id,
}
use ndn_mobile.Mobile.Faces.{resume_peers}
use ndn_mobile.Mobile.Builder.{MobileEngineBuilder}
use ndn_mobile.Mobile.Build.{
  Outcome, emit_all, cs_bytes, forwarder, persistent_store, reserve, rate_limit_table, hooked,
  and_then, nan_discovery, discovery, multicast_face, reserve_peers, nan_face, compute_face, one,
  ipc_listener, management,
}

module _ (lib : Library) where
  -- Before the first call, with no face.
  unfoldable pub fresh : MobileEngineBuilder lib → MobileEngine lib
  fresh b = record {
    effects = [];
    allocated = 0;
    generation = 0;
    multicast_iface = b.multicast_iface;
    multicast_face_id = 0;
    link_profile = b.link_profile;
    network_peers = [];
    nan = none;
    ble = none;
    bulk_pinned = [];
  }

  unfoldable pub or_zero : Option ℕ → ℕ
  or_zero none = 0
  or_zero (some id) = id

  -- A turn of the listener's task: each takes an id, and a face only if a connection is `accepted`.
  unfoldable pub accept_turn : Bool → MobileEngine lib → MobileEngine lib
  accept_turn accepted e =
      let (id, e) = alloc_id lib e in
      if accepted then emit lib (add_face id ipc_app shutdown) e else e

  -- Turns until the token is cancelled, which takes an id too.
  unfoldable pub accept_loop : List Bool → MobileEngine lib → MobileEngine lib
  accept_loop [] e = (alloc_id lib e).1
  accept_loop (accepted ∷ turns) e = accept_loop turns (accept_turn accepted e)

  -- What runs beside the faces of the network.
  unfoldable pub services :
      Outcome lib → MobileEngineBuilder lib → Bool → MobileEngine lib → MobileEngine lib
  services out b snapshot e =
      let e = emit_all lib (one lib (λ config. spawn_tunnel config shutdown) b.tun_config) e in
      let e = emit_all lib (one lib (λ o. install_spans o.0 o.1 shutdown) b.observability) e in
      let e = emit_all lib (ipc_listener lib out b.ipc_listen_path) e in
      emit_all lib (management lib snapshot b) e

  -- The faces, on the forwarder that is built.
  unfoldable pub mount :
      Outcome lib
      → MobileEngineBuilder lib
      → Option ℕ
      → Option ℕ
      → Bool
      → MobileEngine lib
      → MobileEngine lib
  mount out b multicast_id coord_id snapshot e =
      let e = emit_all lib (multicast_face lib out b.multicast_iface multicast_id) e in
      let (peers, e) = reserve_peers lib b e in
      let e = resume_peers lib out.connects peers e in
      let (mounted, nan) = nan_face lib b.wifi_aware coord_id in
      let e = compute_face lib b.compute_prefix (emit_all lib mounted e) in
      record (services out b snapshot e) {
        multicast_face_id = or_zero multicast_id;
        network_peers = peers;
        nan = nan;
      }

  unfoldable pub built : Option Text → MobileEngine lib → Text ⊎ MobileEngine lib
  built none e = inr e
  built (some error) e = inl error

  unfoldable pub finish :
      Outcome lib
      → MobileEngineBuilder lib
      → Option ℕ
      → Option ℕ
      → MobileEngine lib
      → Option lib.DiscoveryProtocol
      → Text ⊎ MobileEngine lib
  finish out b multicast_id coord_id e nan =
      let (registered, snapshot) = discovery lib b.discovery_protocol nan b.node_name in
      let e = emit_all lib registered e in
      let e = emit_all lib (map register_routing b.routing_protocols) e in
      built out.build_error (mount out b multicast_id coord_id snapshot e)

  -- The forwarder's builder with its first face, up to the ids that are reserved.
  unfoldable pub prepare : Outcome lib → MobileEngineBuilder lib → MobileEngine lib
  prepare out b =
      let e = emit_all lib (forwarder lib b) (fresh b) in
      let (app, e) = alloc_id lib e in
      let e = emit lib (add_face app in_proc shutdown) e in
      emit_all lib (persistent_store lib out (cs_bytes lib b) b.persistent_cs_path) e

  unfoldable pub build : Outcome lib → MobileEngineBuilder lib → Text ⊎ MobileEngine lib
  build out b =
      let (multicast_id, e) = reserve lib b.multicast_iface (prepare out b) in
      let (coord_id, e) = reserve lib b.wifi_aware e in
      let e = emit_all lib (hooked lib (rate_limit_table lib b.rate_limit)) e in
      and_then lib (nan_discovery lib b.wifi_aware coord_id) (finish out b multicast_id coord_id e)
