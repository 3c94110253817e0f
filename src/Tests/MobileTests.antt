-- ===== src/Tests/MobileTests.antt =====
-- Runs of the mobile engine over numbers for names.
use ndn_mobile.Prelude.{
  ℕ, ◌+◌, ◌≤◌, ◌⊎◌, inl, inr, ◌≡◌, ◌↔◌, refl, arith, ◌==◌, true, false, none, some, List, [], ◌∷◌,
}
use ndn_mobile.Text.{Text, codes}
use ndn_mobile.Mobile.{Library, MobileEngine, alloc_id, emit}
use ndn_mobile.Mobile.Faces.{
  attach_wifi_aware, id_of, ensure_mesh_strategy, suspend_network_faces, resume_network_faces,
  resume_multicast, resume_peers, resume_nan, resume_ble,
}
use ndn_mobile.Mobile.Bulk.{
  attach_ndp_face, attach_udp_bulk_face, mount_bulk, pin, attach_infra_tunnel_face,
  attach_wifi_direct_multicast_face, mount_group, detach_ndp_face, retain, reverted, revert,
}
use ndn_mobile.Mobile.Routes.{
  note_peer_route, note_kind, kind_of, radio_id, id_in, note_radio, contains, pin_of,
}
use ndn_mobile.Mobile.Calls.{
  Call, run, step, noted, radio, ndp, tunnel, direct_group, detach, suspend, resume,
}
use ndn_mobile.Mobile.Supervisor
use ndn_mobile.Mobile.Supervisor.{Moment, checking, stopped, check, sleep, run-stopped}
use ndn_mobile.Mobile.Builder.{
  MobileEngineBuilder, default, option_map, with_management_secured, wifi_aware_discover,
  with_wifi_aware, with_unicast_peer, with_tcp_peer, with_udp_multicast,
}
use ndn_mobile.Mobile.Build.{
  Outcome, and_then, nan_discovery, reserve, bindings_of, is_empty, discover_all, labelled,
  advertise_all,
}
use ndn_mobile.Mobile.Build.Engine.{build, finish, built}
use ndn_mobile.Mobile.Build.Steps.{count}
use ndn_mobile.Mobile.Build.Fresh.{IsFresh, build-IsFresh}
use ndn_mobile.Mobile.Pins.{IsPinned, is_pinned}
use ndn_mobile.Mobile.Pins.Run.{run-IsPinned}

abbrev pub lib : Library
lib = record {
  Name = ℕ;
  root = 0;
  same_name = λ a b. a == b;
  SocketAddr = ℕ;
  addr_text = λ a. codes "10.0.0.1:6363";
  Iface = ℕ;
  ClientTls = ℕ;
  NanBackend = ℕ;
  AdvBackend = ℕ;
  Producer = ℕ;
  SecurityProfile = ℕ;
  default_profile = 0;
  default_links = λ k. 10;
  append = λ n t. n;
  RoutingProtocol = ℕ;
  DiscoveryProtocol = ℕ;
  neighbor_probe = λ n. n;
  NanServiceName = ℕ;
  NanDiscovery = ℕ;
  nan_discovery = λ b id. id;
  discover = λ s n d. inr d;
  advertise = λ s d. inr d;
  of_nan = λ d. d;
  Store = ℕ;
  SpanRetention = ℕ;
  span_retention = λ w b n. n;
  RateLimitTable = ℕ;
  no_limits = 0;
  populate = λ t r. r;
  Validator = ℕ;
  Signer = ℕ;
  LogInspector = ℕ;
  ComputeMgmtBackend = ℕ;
  mgmt_localhop_prefix = 9;
  face_id = λ n. n;
}

abbrev pub start : MobileEngine lib
start = record {
  effects = [];
  allocated = 2;
  generation = 0;
  multicast_iface = some 1;
  multicast_face_id = 1;
  link_profile = λ k. 10;
  network_peers = [];
  nan = none;
  ble = none;
  bulk_pinned = [];
}

same_iff : (a b : ℕ) → (a == b ≡ true) ↔ (a ≡ b)
same_iff a b = (λ h. ground (arith, h), λ h. ground (arith, h))

start-IsPinned : IsPinned lib start
unfolding contains pin_of
start-IsPinned = record { measured = λ p. refl; unrooted = refl; distinct = tt }

-- A radio, two bulk faces, a note of the pinned prefix, and one of the two goes.
abbrev calls : List (Call lib)
calls =
    radio 5
    ∷ ndp true 7 30 9
    ∷ tunnel (some 31) true 8 9
    ∷ noted 7 (codes "wifi-aware")
    ∷ noted 6 (codes "wifi-aware")
    ∷ suspend
    ∷ resume true (λ id spec. true)
    ∷ direct_group true 4
    ∷ detach 4
    ∷ []

still_pinned :
    (is_pinned lib 7 (run lib calls start) ≡ true) × (is_pinned lib 8 (run lib calls start) ≡ false)
unfolding step attach_wifi_aware id_of alloc_id emit ensure_mesh_strategy attach_ndp_face
    attach_udp_bulk_face mount_bulk pin attach_infra_tunnel_face note_peer_route note_kind kind_of
    radio_id id_in note_radio contains pin_of suspend_network_faces resume_network_faces
    resume_multicast resume_peers resume_nan resume_ble attach_wifi_direct_multicast_face
    mount_group detach_ndp_face retain reverted revert ndn_mobile.Text.cmp
still_pinned = (refl, refl)

run-IsPinned_example : IsPinned lib (run lib calls start)
run-IsPinned_example =
    run-IsPinned lib same_iff calls start
      (tt, (refl, (refl, (tt, (tt, (tt, (tt, (tt, (tt, tt))))))))) start-IsPinned

-- Two kinds of peers, given out of order, beside multicast, Wi-Fi Aware and management.
abbrev builder : MobileEngineBuilder lib
builder = with_management_secured lib 1 2 (
    wifi_aware_discover lib 3 7 (
      with_wifi_aware lib 5
        (with_unicast_peer lib 20 (with_tcp_peer lib 21 (with_udp_multicast lib 1 (default lib))))))

abbrev pub outcome : Outcome lib
outcome = record {
  opens_store = λ path n. none;
  opens_multicast = true;
  connects = λ id spec. false;
  binds = λ path. true;
  build_error = none;
}

abbrev engine_of : Text ⊎ MobileEngine lib → MobileEngine lib
engine_of (inl e) = start
engine_of (inr e) = e

abbrev engine : MobileEngine lib
engine = engine_of (build lib outcome builder)

builds : build lib outcome builder ≡ inr engine
unfolding build and_then nan_discovery with_management_secured wifi_aware_discover option_map
    with_wifi_aware reserve bindings_of is_empty discover_all labelled advertise_all finish built
builds = refl

build-IsFresh_example :
    IsFresh lib builder
      (1 + count lib builder.multicast_iface + count lib builder.wifi_aware)
      engine
build-IsFresh_example = build-IsFresh lib outcome builder engine builds

abbrev gone : Moment
gone = record { present = false; cancelled = true; connected = false }

abbrev down : Moment
down = record { present = false; cancelled = false; connected = false }

-- Four dials fail: the fifth would wait for four seconds.
backed_off :
    Supervisor.run
      (down ∷ down ∷ down ∷ down ∷ down ∷ down ∷ down ∷ down ∷ down ∷ down ∷ down ∷ down ∷ [])
      Supervisor.start
    ≡ checking 4000
unfolding Supervisor.step check
backed_off = refl

run-stopped_example :
    (sleep (Supervisor.run (down ∷ []) Supervisor.start) ≤ 10000)
    × (Supervisor.run (gone ∷ gone ∷ []) (Supervisor.run (down ∷ []) Supervisor.start) ≡ stopped)
run-stopped_example = run-stopped (down ∷ []) (gone ∷ gone ∷ []) (refl, (refl, tt)) (omega arith)
