-- ===== src/Mobile/Builder.antt =====
-- The builder of the mobile engine, with all its features on.
use ndn_mobile.Prelude.{ℕ, ◌*◌, max, Bool, true, false, Option, none, some, List, [], ◌∷◌, ◌++◌}
use ndn_mobile.Text.{Text, codes}
use ndn_mobile.Tun.{TunConfig}
use ndn_mobile.Mobile.{Library, FaceKind, MobileStrategy, best_route}

-- `as_mut`, where there is a value.
unfoldable pub option_map : {A : Type 0} → (A → A) → Option A → Option A
option_map f none = none
option_map f (some a) = some (f a)

module _ (lib : Library) where
  open lib use {Name, SocketAddr, Iface, ClientTls, NanBackend}

  unfoldable pub mobile_low_retention : lib.SpanRetention
  mobile_low_retention = lib.span_retention (5 * 60) (1024 * 1024) 1000

  unfoldable pub observability_prefix : Name
  observability_prefix =
      lib.append (lib.append (lib.append lib.root (codes "localhost")) (codes "nfd"))
        (codes "observability")

  pub record WifiAwareCfg : Type 0 where
    pub backend : NanBackend
    pub discover : List (lib.NanServiceName × Name)
    pub advertise : List lib.NanServiceName

  pub record MobileEngineBuilder : Type 0 where
    pub cs_capacity_mb : ℕ
    pub security_profile : lib.SecurityProfile
    pub multicast_iface : Option Iface
    pub unicast_peers : List SocketAddr
    pub tcp_peers : List SocketAddr
    pub ws_peers : List Text
    pub serial_ports : List (Text × ℕ)
    pub webtransport_peers : List (Text × ClientTls)
    pub ipc_listen_path : Option Text
    pub routing_protocols : List lib.RoutingProtocol
    pub discovery_protocol : Option lib.DiscoveryProtocol
    pub node_name : Option Name
    pub strategy : MobileStrategy
    pub link_profile : FaceKind → ℕ
    pub pipeline_threads : ℕ
    pub enable_management : Bool
    pub secured_mgmt : Option (lib.Validator × lib.Signer)
    pub log_inspector : Option lib.LogInspector
    pub compute_mgmt_backend : Option lib.ComputeMgmtBackend
    pub wifi_aware : Option WifiAwareCfg
    pub observability : Option (Name × lib.SpanRetention)
    pub compute_prefix : Option Name
    pub rate_limit : Option (Option Text)
    pub enable_fec : Bool
    pub tun_config : Option (TunConfig Name)
    pub persistent_cs_path : Option Text

  unfoldable pub default : MobileEngineBuilder
  default = record {
    cs_capacity_mb = 8;
    security_profile = lib.default_profile;
    multicast_iface = none;
    unicast_peers = [];
    tcp_peers = [];
    ws_peers = [];
    serial_ports = [];
    webtransport_peers = [];
    ipc_listen_path = none;
    routing_protocols = [];
    discovery_protocol = none;
    node_name = none;
    strategy = best_route;
    link_profile = lib.default_links;
    pipeline_threads = 1;
    enable_management = false;
    secured_mgmt = none;
    log_inspector = none;
    compute_mgmt_backend = none;
    wifi_aware = none;
    observability = none;
    compute_prefix = none;
    rate_limit = none;
    enable_fec = false;
    tun_config = none;
    persistent_cs_path = none;
  }

  unfoldable pub cs_capacity_mb : ℕ → MobileEngineBuilder → MobileEngineBuilder
  cs_capacity_mb mb b = record b { cs_capacity_mb = mb }

  unfoldable pub security_profile : lib.SecurityProfile → MobileEngineBuilder → MobileEngineBuilder
  security_profile profile b = record b { security_profile = profile }

  unfoldable pub pipeline_threads : ℕ → MobileEngineBuilder → MobileEngineBuilder
  pipeline_threads n b = record b { pipeline_threads = max n 1 }

  unfoldable pub with_link_profile : (FaceKind → ℕ) → MobileEngineBuilder → MobileEngineBuilder
  with_link_profile profile b = record b { link_profile = profile }

  unfoldable pub with_strategy : MobileStrategy → MobileEngineBuilder → MobileEngineBuilder
  with_strategy s b = record b { strategy = s }

  unfoldable pub with_udp_multicast : Iface → MobileEngineBuilder → MobileEngineBuilder
  with_udp_multicast iface b = record b { multicast_iface = some iface }

  unfoldable pub with_unicast_peer : SocketAddr → MobileEngineBuilder → MobileEngineBuilder
  with_unicast_peer addr b = record b { unicast_peers = b.unicast_peers ++ addr ∷ [] }

  unfoldable pub with_tcp_peer : SocketAddr → MobileEngineBuilder → MobileEngineBuilder
  with_tcp_peer addr b = record b { tcp_peers = b.tcp_peers ++ addr ∷ [] }

  unfoldable pub with_websocket_peer : Text → MobileEngineBuilder → MobileEngineBuilder
  with_websocket_peer url b = record b { ws_peers = b.ws_peers ++ url ∷ [] }

  unfoldable pub with_serial : Text → ℕ → MobileEngineBuilder → MobileEngineBuilder
  with_serial port baud b = record b { serial_ports = b.serial_ports ++ (port, baud) ∷ [] }

  unfoldable pub with_webtransport_peer :
      Text → ClientTls → MobileEngineBuilder → MobileEngineBuilder
  with_webtransport_peer url tls b = record b {
    webtransport_peers = b.webtransport_peers ++ (url, tls) ∷ [];
  }

  unfoldable pub with_ipc_listener : Text → MobileEngineBuilder → MobileEngineBuilder
  with_ipc_listener path b = record b { ipc_listen_path = some path }

  unfoldable pub with_management : MobileEngineBuilder → MobileEngineBuilder
  with_management b = record b { enable_management = true }

  unfoldable pub with_management_secured :
      lib.Validator → lib.Signer → MobileEngineBuilder → MobileEngineBuilder
  with_management_secured validator signer b = record b {
    enable_management = true;
    secured_mgmt = some (validator, signer);
  }

  unfoldable pub with_log_inspector : lib.LogInspector → MobileEngineBuilder → MobileEngineBuilder
  with_log_inspector inspector b = record b { log_inspector = some inspector }

  unfoldable pub with_compute_mgmt_backend :
      lib.ComputeMgmtBackend → MobileEngineBuilder → MobileEngineBuilder
  with_compute_mgmt_backend backend b = record b { compute_mgmt_backend = some backend }

  unfoldable pub with_observability : MobileEngineBuilder → MobileEngineBuilder
  with_observability b = record b {
    observability = some (observability_prefix, mobile_low_retention);
  }

  unfoldable pub with_observability_config :
      Name → lib.SpanRetention → MobileEngineBuilder → MobileEngineBuilder
  with_observability_config prefix retention b = record b {
    observability = some (prefix, retention);
  }

  unfoldable pub with_routing_protocol :
      lib.RoutingProtocol → MobileEngineBuilder → MobileEngineBuilder
  with_routing_protocol proto b = record b { routing_protocols = b.routing_protocols ++ proto ∷ [] }

  unfoldable pub with_wifi_aware : NanBackend → MobileEngineBuilder → MobileEngineBuilder
  with_wifi_aware backend b = record b {
    wifi_aware = some (record { backend = backend; discover = []; advertise = [] });
  }

  unfoldable pub wifi_aware_discover :
      lib.NanServiceName → Name → MobileEngineBuilder → MobileEngineBuilder
  wifi_aware_discover service prefix b = record b {
    wifi_aware =
        option_map (λ c. record c { discover = c.discover ++ (service, prefix) ∷ [] }) b.wifi_aware;
  }

  unfoldable pub wifi_aware_advertise :
      lib.NanServiceName → MobileEngineBuilder → MobileEngineBuilder
  wifi_aware_advertise service b = record b {
    wifi_aware =
        option_map (λ c. record c { advertise = c.advertise ++ service ∷ [] }) b.wifi_aware;
  }

  unfoldable pub with_discovery_protocol :
      lib.DiscoveryProtocol → MobileEngineBuilder → MobileEngineBuilder
  with_discovery_protocol proto b = record b { discovery_protocol = some proto }

  unfoldable pub with_compute : Name → MobileEngineBuilder → MobileEngineBuilder
  with_compute prefix b = record b { compute_prefix = some prefix }

  unfoldable pub with_rate_limit : Option Text → MobileEngineBuilder → MobileEngineBuilder
  with_rate_limit policy_toml b = record b { rate_limit = some policy_toml }

  unfoldable pub with_fec : MobileEngineBuilder → MobileEngineBuilder
  with_fec b = record b { enable_fec = true }

  unfoldable pub with_tun : TunConfig Name → MobileEngineBuilder → MobileEngineBuilder
  with_tun config b = record b { tun_config = some config }

  unfoldable pub with_discovery : Name → MobileEngineBuilder → MobileEngineBuilder
  with_discovery node_name b = record b { node_name = some node_name }

  unfoldable pub with_persistent_cs : Text → MobileEngineBuilder → MobileEngineBuilder
  with_persistent_cs path b = record b { persistent_cs_path = some path }
