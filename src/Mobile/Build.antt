-- ===== src/Mobile/Build.antt =====
-- `build`: the engine that a builder describes.
pub mod Engine
pub mod Steps
pub mod Fresh
use ndn_mobile.Prelude.{
  ℕ, suc, ◌+◌, ◌*◌, ◌%◌, ◌^◌, ◌==◌, Bool, true, false, not, ◌||◌, if◌then◌else◌, Option, none, some,
  List, [], ◌∷◌, ◌++◌, ◌⊎◌, inl, inr, map,
}
use ndn_mobile.Text.{Text, codes}
use ndn_mobile.Mobile.{
  Library, MobileStrategy, Token, network, shutdown, PeerSpec, udp_unicast, tcp, web_socket, serial,
  web_transport, Face, in_proc, compute, udp_multicast, nan_coord, Effect, add_face, add_nexthop,
  configure, root_strategy, content_store, limit_rates, register_discovery, register_routing,
  spawn_tunnel, install_spans, listen, mount_management, clear_nexthops, RuntimePolicy, MgmtHandles,
  MobileEngine, emit, alloc_id, nan_coord_mtu,
}
use ndn_mobile.Mobile.Faces.{resume_peers}
use ndn_mobile.Mobile.Builder.{MobileEngineBuilder, WifiAwareCfg}

module _ (lib : Library) where
  open lib use {Name, Iface, NanBackend, NanDiscovery, DiscoveryProtocol}

  -- How the outside answers during the build: which store opens, whether the multicast socket opens
  -- and the listener binds, which peers connect at once, what the forwarder's own build says.
  pub record Outcome : Type 0 where
    pub opens_store : Text → (max_bytes : ℕ) → Option lib.Store
    pub opens_multicast : Bool
    pub connects : ℕ → PeerSpec lib → Bool
    pub binds : Text → Bool
    pub build_error : Option Text

  unfoldable pub emit_all : List (Effect lib) → MobileEngine lib → MobileEngine lib
  emit_all [] e = e
  emit_all (x ∷ xs) e = emit_all xs (emit lib x e)

  unfoldable pub cs_bytes : MobileEngineBuilder lib → ℕ
  cs_bytes b = b.cs_capacity_mb * 1024 * 1024 % 2 ^ 64

  unfoldable pub forwarder : MobileEngineBuilder lib → List (Effect lib)
  forwarder b =
      configure (cs_bytes b) b.pipeline_threads 1024 b.security_profile
      ∷ root_strategy b.strategy
      ∷ []

  unfoldable pub opened : Option lib.Store → List (Effect lib)
  opened none = []
  opened (some cs) = content_store cs ∷ []

  unfoldable pub persistent_store : Outcome → ℕ → Option Text → List (Effect lib)
  persistent_store out max_bytes none = []
  persistent_store out max_bytes (some path) = opened (out.opens_store path max_bytes)

  unfoldable pub reserve : {A : Type 0} → Option A → MobileEngine lib → Option ℕ × MobileEngine lib
  reserve none e = (none, e)
  reserve (some a) e = let (id, e) = alloc_id lib e in (some id, e)

  unfoldable pub table_of : Option Text → lib.RateLimitTable
  table_of none = lib.no_limits
  table_of (some toml) = lib.populate toml lib.no_limits

  unfoldable pub rate_limit_table : Option (Option Text) → Option lib.RateLimitTable
  rate_limit_table none = none
  rate_limit_table (some toml) = some (table_of toml)

  unfoldable pub hooked : Option lib.RateLimitTable → List (Effect lib)
  hooked none = []
  hooked (some table) = limit_rates table ∷ []

  -- The bindings in order, up to the first that fails.
  unfoldable pub and_then : {A B : Type 0} → Text ⊎ A → (A → Text ⊎ B) → Text ⊎ B
  and_then (inl e) f = inl e
  and_then (inr a) f = f a

  unfoldable pub labelled : {A : Type 0} → Text → Text ⊎ A → Text ⊎ A
  labelled label (inl e) = inl (label ++ e)
  labelled label (inr a) = inr a

  unfoldable pub discover_all :
      List (lib.NanServiceName × Name) → NanDiscovery → Text ⊎ NanDiscovery
  discover_all [] disc = inr disc
  discover_all ((service, prefix) ∷ rest) disc =
      and_then (labelled (codes "wifi-aware subscribe: ") (lib.discover service prefix disc))
        (discover_all rest)

  unfoldable pub advertise_all : List lib.NanServiceName → NanDiscovery → Text ⊎ NanDiscovery
  advertise_all [] disc = inr disc
  advertise_all (service ∷ rest) disc =
      and_then (labelled (codes "wifi-aware publish: ") (lib.advertise service disc))
        (advertise_all rest)

  unfoldable pub is_empty : {A : Type 0} → List A → Bool
  is_empty [] = true
  is_empty (a ∷ rest) = false

  unfoldable pub bindings_of : WifiAwareCfg lib → ℕ → Text ⊎ Option DiscoveryProtocol
  bindings_of cfg coord_id =
      if not (is_empty cfg.discover) || not (is_empty cfg.advertise)
      then and_then
          (and_then (discover_all cfg.discover (lib.nan_discovery cfg.backend coord_id))
            (advertise_all cfg.advertise))
          (λ disc. inr (some (lib.of_nan disc)))
      else inr none

  unfoldable pub nan_discovery :
      Option (WifiAwareCfg lib) → Option ℕ → Text ⊎ Option DiscoveryProtocol
  nan_discovery (some cfg) (some coord_id) = bindings_of cfg coord_id
  nan_discovery _ _ = inr none

  -- An explicit protocol before the NAN bindings before the Hello probe; and whether there is a
  -- snapshot of the probe's configuration.
  unfoldable pub discovery :
      Option DiscoveryProtocol → Option DiscoveryProtocol → Option Name → List (Effect lib) × Bool
  discovery (some proto) nan node_name = (register_discovery proto ∷ [], false)
  discovery none (some proto) node_name = (register_discovery proto ∷ [], false)
  discovery none none (some node_name) =
      (register_discovery (lib.neighbor_probe node_name) ∷ [], true)
  discovery none none none = ([], false)

  unfoldable pub multicast_face : Outcome → Option Iface → Option ℕ → List (Effect lib)
  multicast_face out (some iface) (some id) =
      if out.opens_multicast then add_face id (udp_multicast iface) (network 0) ∷ [] else []
  multicast_face out _ _ = []

  unfoldable pub push_peers :
      List (PeerSpec lib)
      → List (ℕ × PeerSpec lib) × MobileEngine lib
      → List (ℕ × PeerSpec lib) × MobileEngine lib
  push_peers [] s = s
  push_peers (spec ∷ specs) (peers, e) =
      let (id, e) = alloc_id lib e in push_peers specs (peers ++ (id, spec) ∷ [], e)

  unfoldable pub serial_spec : Text × ℕ → PeerSpec lib
  serial_spec (port, baud) = serial port baud

  unfoldable pub web_transport_spec : Text × lib.ClientTls → PeerSpec lib
  web_transport_spec (url, tls) = web_transport url tls

  unfoldable pub reserve_peers :
      MobileEngineBuilder lib → MobileEngine lib → List (ℕ × PeerSpec lib) × MobileEngine lib
  reserve_peers b e =
      let s = push_peers (map udp_unicast b.unicast_peers) ([], e) in
      let s = push_peers (map tcp b.tcp_peers) s in
      let s = push_peers (map web_socket b.ws_peers) s in
      let s = push_peers (map serial_spec b.serial_ports) s in
      push_peers (map web_transport_spec b.webtransport_peers) s

  unfoldable pub nan_face :
      Option (WifiAwareCfg lib) → Option ℕ → List (Effect lib) × Option (ℕ × NanBackend)
  nan_face (some cfg) (some coord_id) = (
    add_face coord_id (nan_coord cfg.backend nan_coord_mtu) (network 0) ∷ [],
    some (coord_id, cfg.backend),
  )
  nan_face _ _ = ([], none)

  unfoldable pub compute_face : Option Name → MobileEngine lib → MobileEngine lib
  compute_face none e = e
  compute_face (some prefix) e =
      let (id, e) = alloc_id lib e in
      emit_all (add_face id compute shutdown ∷ add_nexthop prefix id 0 ∷ []) e

  unfoldable pub one : {A : Type 0} → (A → Effect lib) → Option A → List (Effect lib)
  one f none = []
  one f (some a) = f a ∷ []

  unfoldable pub ipc_listener : Outcome → Option Text → List (Effect lib)
  ipc_listener out none = []
  ipc_listener out (some path) = if out.binds path then listen path shutdown ∷ [] else []

  unfoldable pub locked_policy : RuntimePolicy lib
  locked_policy = record {
    ephemeral_allowed = false;
    localhop_disabled = true;
    replay_window_secs = 120;
    require_signed_commands = true;
  }

  unfoldable pub handles_of :
      Option (lib.Validator × lib.Signer) → Bool → MobileEngineBuilder lib → MgmtHandles lib
  handles_of (some (validator, signer)) snapshot b = record {
    security_is_ephemeral = false;
    command_validator = some validator;
    command_response_signer = some signer;
    require_signed_commands = true;
    has_replay_cache = true;
    runtime_policy = some locked_policy;
    discovery_config = snapshot;
    coding = b.enable_fec;
    rate_limits = rate_limit_table b.rate_limit;
    log_inspector = b.log_inspector;
    compute_backend = b.compute_mgmt_backend;
  }
  handles_of none snapshot b = record {
    security_is_ephemeral = true;
    command_validator = none;
    command_response_signer = none;
    require_signed_commands = false;
    has_replay_cache = false;
    runtime_policy = none;
    discovery_config = snapshot;
    coding = b.enable_fec;
    rate_limits = rate_limit_table b.rate_limit;
    log_inspector = b.log_inspector;
    compute_backend = b.compute_mgmt_backend;
  }

  unfoldable pub management : Bool → MobileEngineBuilder lib → List (Effect lib)
  management snapshot b =
      if b.enable_management
      then mount_management (handles_of b.secured_mgmt snapshot b) shutdown
        ∷ clear_nexthops lib.mgmt_localhop_prefix
        ∷ []
      else []
