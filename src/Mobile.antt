-- ===== src/Mobile.antt =====
-- The mobile engine of crates/ndn-mobile/src/engine.rs: its state, and the calls of the forwarder that
-- its methods make.
pub mod Faces
pub mod Supervisor
pub mod Routes
pub mod Bulk
pub mod Calls
pub mod Pins
pub mod Allocation
pub mod Builder
pub mod Build
use ndn_mobile.Prelude.{ℕ, suc, ◌+◌, Bool, Option, none, some, List, [], ◌∷◌, ◌++◌, ◌⊎◌}
use ndn_mobile.Text.{Text, codes}
use ndn_mobile.Text.Print.{decimal}
use ndn_mobile.Tun.{TunConfig}

abbrev pub nan_coord_mtu : ℕ
nan_coord_mtu = 200

pub data MobileStrategy : Type 0 where
  best_route : MobileStrategy
  multicast : MobileStrategy
  cclf : MobileStrategy

-- The kinds of face that the engine names.
pub data FaceKind : Type 0 where
  wifi_aware : FaceKind
  bluetooth : FaceKind
  udp : FaceKind
  wifi_direct : FaceKind
  infra_tunnel : FaceKind

-- What the forwarder, packet and face libraries have. `face_id n` is the id that the face table gives
-- at its n-th allocation.
pub record Library : Type 1 where
  pub Name : Type 0
  pub root : Name
  pub same_name : Name → Name → Bool
  pub SocketAddr : Type 0
  pub addr_text : SocketAddr → Text
  pub Iface : Type 0
  pub ClientTls : Type 0
  pub NanBackend : Type 0
  pub AdvBackend : Type 0
  pub Producer : Type 0
  pub SecurityProfile : Type 0
  pub default_profile : SecurityProfile
  -- `LinkProfile`, as the cost of each kind of face.
  pub default_links : FaceKind → ℕ
  pub append : Name → Text → Name
  pub RoutingProtocol : Type 0
  pub DiscoveryProtocol : Type 0
  -- `NeighborProbeProtocol` with the mobile profile's intervals.
  pub neighbor_probe : Name → DiscoveryProtocol
  pub NanServiceName : Type 0
  pub NanDiscovery : Type 0
  pub nan_discovery : NanBackend → (face : ℕ) → NanDiscovery
  pub discover : NanServiceName → Name → NanDiscovery → Text ⊎ NanDiscovery
  pub advertise : NanServiceName → NanDiscovery → Text ⊎ NanDiscovery
  pub of_nan : NanDiscovery → DiscoveryProtocol
  pub Store : Type 0
  pub SpanRetention : Type 0
  pub span_retention : (window_secs max_bytes max_spans : ℕ) → SpanRetention
  -- The policy table, and what populating it from a text makes of it.
  pub RateLimitTable : Type 0
  pub no_limits : RateLimitTable
  pub populate : Text → RateLimitTable → RateLimitTable
  pub Validator : Type 0
  pub Signer : Type 0
  pub LogInspector : Type 0
  pub ComputeMgmtBackend : Type 0
  pub mgmt_localhop_prefix : Name
  pub face_id : ℕ → ℕ

-- What ends with a token's cancellation: a generation of network faces, or the engine.
pub data Token : Type 0 where
  network : ℕ → Token
  shutdown : Token

pub data Strategy : Type 0 where
  multicast_strategy : Strategy
  measured_strategy : Strategy

module _ (lib : Library) where
  open lib use {Name, SocketAddr, Iface, ClientTls, NanBackend, AdvBackend}

  pub data PeerSpec : Type 0 where
    udp_unicast : SocketAddr → PeerSpec
    tcp : SocketAddr → PeerSpec
    web_socket : Text → PeerSpec
    serial : Text → ℕ → PeerSpec
    web_transport : Text → ClientTls → PeerSpec

  unfoldable pub uri : PeerSpec → Text
  uri (udp_unicast a) = codes "udp4://" ++ lib.addr_text a
  uri (tcp a) = codes "tcp4://" ++ lib.addr_text a
  uri (web_socket u) = u
  uri (serial p b) = codes "serial://" ++ p ++ codes "?baud=" ++ decimal b
  uri (web_transport u tls) = u

  pub data Face : Type 0 where
    in_proc : Face
    compute : Face
    ipc_app : Face
    app_socket : (fd : ℕ) → Face
    udp_multicast : Iface → Face
    direct_multicast : Iface → Face
    persistent_peer : PeerSpec → Face
    nan_coord : NanBackend → (mtu : ℕ) → Face
    ble_adv : AdvBackend → Face
    bulk_udp : (fd : ℕ) → SocketAddr → FaceKind → Face

  -- `MgmtAccessPolicy`.
  pub record RuntimePolicy : Type 0 where
    pub ephemeral_allowed : Bool
    pub localhop_disabled : Bool
    pub replay_window_secs : ℕ
    pub require_signed_commands : Bool

  -- What the management dispatcher is mounted with; `has_replay_cache` is whether there is a cache,
  -- `discovery_config` and `coding` whether there is a snapshot and a policy table.
  pub record MgmtHandles : Type 0 where
    pub security_is_ephemeral : Bool
    pub command_validator : Option lib.Validator
    pub command_response_signer : Option lib.Signer
    pub require_signed_commands : Bool
    pub has_replay_cache : Bool
    pub runtime_policy : Option RuntimePolicy
    pub discovery_config : Bool
    pub coding : Bool
    pub rate_limits : Option lib.RateLimitTable
    pub log_inspector : Option lib.LogInspector
    pub compute_backend : Option lib.ComputeMgmtBackend

  -- A call of the forwarder, or a task that is spawned.
  pub data Effect : Type 0 where
    add_face : ℕ → Face → Token → Effect
    remove_face : ℕ → Effect
    add_nexthop : Name → ℕ → (cost : ℕ) → Effect
    set_strategy : Name → Strategy → Effect
    add_region : Name → Effect
    cancel : Token → Effect
    keepalive : ℕ → SocketAddr → Token → Effect
    supervise : ℕ → PeerSpec → Token → Effect
    configure :
        (cs_capacity_bytes pipeline_threads pipeline_channel_cap : ℕ) → lib.SecurityProfile → Effect
    root_strategy : MobileStrategy → Effect
    content_store : lib.Store → Effect
    limit_rates : lib.RateLimitTable → Effect
    register_discovery : lib.DiscoveryProtocol → Effect
    register_routing : lib.RoutingProtocol → Effect
    spawn_tunnel : TunConfig Name → Token → Effect
    install_spans : Name → lib.SpanRetention → Token → Effect
    listen : (path : Text) → Token → Effect
    mount_management : MgmtHandles → Token → Effect
    clear_nexthops : Name → Effect

  -- Without the handles that only accessors give out.
  pub record MobileEngine : Type 0 where
    -- What was done to the forwarder, newest first.
    pub effects : List Effect
    -- How many face ids have been allocated.
    pub allocated : ℕ
    -- The generation of `network_cancel`.
    pub generation : ℕ
    pub multicast_iface : Option Iface
    pub multicast_face_id : ℕ
    pub link_profile : FaceKind → ℕ
    pub network_peers : List (ℕ × PeerSpec)
    pub nan : Option (ℕ × NanBackend)
    pub ble : Option (ℕ × AdvBackend)
    pub bulk_pinned : List (Name × ℕ)

  unfoldable pub emit : Effect → MobileEngine → MobileEngine
  emit x e = record e { effects = x ∷ e.effects }

  -- `faces().alloc_id()`.
  unfoldable pub alloc_id : MobileEngine → ℕ × MobileEngine
  alloc_id e = (lib.face_id e.allocated, record e { allocated = suc e.allocated })
