-- ===== src/Infra.antt =====
-- The same-AP tunnel of crates/ndn-boltffi/src/engine.rs, and what a beacon does to the engine.
pub mod Descriptors
pub mod Subnet
use ndn_mobile.Prelude.{
  ℕ, Bool, true, false, not, ◌==◌, if◌then◌else◌, Option, none, some, List, [], ◌∷◌, ◌++◌, null,
}
use ndn_mobile.Text.{Text, codes, same}
use ndn_mobile.Text.Map.{lookup, insert, remove}
use ndn_mobile.Text.Print.{ℤ, decimal}
use ndn_mobile.Discovery
use ndn_mobile.Discovery.{DiscoveryState, peer_node_prefix}

abbrev pub infra_port : ℕ
infra_port = 7656

-- `rsplit_once('.')`, without the host.
unfoldable pub push_net : ℕ → Option Text → Option Text
push_net c none = if c == b'.' then some [] else none
push_net c (some net) = some (c ∷ net)

unfoldable pub net : Text → Option Text
net [] = none
net (c ∷ s) = push_net c (net s)

unfoldable pub both_same : Option Text → Option Text → Bool
both_same (some x) (some y) = same x y
both_same _ _ = false

unfoldable pub same_subnet24 : Text → Text → Bool
same_subnet24 a b = both_same (net a) (net b)

-- How the standard library and the packet library read an address and a name.
pub record Parsers : Type 1 where
  pub Name : Type 0
  pub SocketAddr : Type 0
  pub parse_addr : Text → Option SocketAddr
  pub parse_name : Text → Option Name

module _ (lib : Parsers) where
  open lib use {Name, SocketAddr}

  pub record Node : Type 0 where
    pub discovery : Option DiscoveryState
    -- Whether the embedded engine is up.
    pub inner : Bool
    -- The routes that beacons have installed, and the tunnels that were tried, newest first.
    pub routes : List (Name × Text)
    pub attached : List (Name × ℕ × SocketAddr)
    pub local_infra_addr : Option Text
    -- A `HashSet` of peer ids.
    pub infra_peers : List (Text × Unit {0})
    -- A descriptor that the platform hands over is not negative.
    pub infra_socket_fd : Option ℕ
    -- The descriptors that were closed.
    pub closed : List ℕ

  unfoldable pub equal : Option Text → Option Text → Bool
  equal none none = true
  equal (some a) (some b) = same a b
  equal _ _ = false

  unfoldable pub non_empty : Text → Option Text
  non_empty s = if null s then none else some s

  unfoldable pub set_infra_addr : Text → Node → Node
  set_infra_addr ipv4 s =
      let next = non_empty ipv4 in
      if equal s.local_infra_addr next
      then s
      else record s { local_infra_addr = next; infra_peers = [] }

  unfoldable pub close : Option ℕ → List ℕ → List ℕ
  close none closed = closed
  close (some old) closed = old ∷ closed

  unfoldable pub set_infra_socket : ℕ → Node → Node
  set_infra_socket fd s = record s {
    infra_socket_fd = some fd;
    closed = close s.infra_socket_fd s.closed;
    infra_peers = [];
  }

  -- With the id reserved: `attaches` is what `attach_infra_tunnel_fd` answers.
  unfoldable pub adopt : Bool → Text → Name → SocketAddr → Option ℕ → Node → Node
  adopt attaches id prefix peer none s = record s { infra_peers = remove id s.infra_peers }
  adopt attaches id prefix peer (some fd) s = record s {
    infra_socket_fd = none;
    attached = (prefix, fd, peer) ∷ s.attached;
    infra_peers = if attaches then s.infra_peers else remove id s.infra_peers;
  }

  unfoldable pub reserve : Bool → Text → Name → SocketAddr → Option (Unit {0}) → Node → Node
  reserve attaches id prefix peer (some _) s = s
  reserve attaches id prefix peer none s =
      adopt attaches id prefix peer s.infra_socket_fd
        (record s { infra_peers = insert id tt s.infra_peers })

  unfoldable pub reach : Bool → Text → Name → Option SocketAddr → Node → Node
  reach attaches id prefix none s = s
  reach attaches id prefix (some peer) s =
      reserve attaches id prefix peer (lookup id s.infra_peers) s

  unfoldable pub from_addr : Bool → Text → Name → Text → Option Text → Node → Node
  from_addr attaches id prefix peer_ip none s = s
  from_addr attaches id prefix peer_ip (some local_ip) s =
      if not (same_subnet24 local_ip peer_ip)
      then s
      else reach attaches id prefix (lib.parse_addr (peer_ip ++ codes ":" ++ decimal infra_port)) s

  unfoldable pub maybe_attach_infra_tunnel : Bool → Text → Name → Text → Node → Node
  maybe_attach_infra_tunnel attaches id prefix peer_ip s =
      from_addr attaches id prefix peer_ip s.local_infra_addr s

  unfoldable pub record_peer :
      ℕ → Text → Text → Text → ℤ → Option Text → Option DiscoveryState → Option DiscoveryState
  record_peer now id label face rssi infra none = none
  record_peer now id label face rssi infra (some d) =
      some (Discovery.note_peer now id label face rssi infra d)

  unfoldable pub tunnel : Bool → Text → Name → Option Text → Node → Node
  tunnel attaches id prefix none s = s
  tunnel attaches id prefix (some peer_ip) s =
      maybe_attach_infra_tunnel attaches id prefix peer_ip s

  unfoldable pub route : Bool → Text → Text → Option Text → Option Name → Node → Node
  route attaches id face infra none s = s
  route attaches id face infra (some prefix) s =
      if s.inner
      then tunnel attaches id prefix infra (record s { routes = (prefix, face) ∷ s.routes })
      else s

  unfoldable pub note_peer : ℕ → Bool → Text → Text → Text → ℤ → Text → Node → Node
  note_peer now attaches id label face rssi infra_addr s =
      if null id
      then s
      else let infra = non_empty infra_addr in
        let noted = record s { discovery = record_peer now id label face rssi infra s.discovery } in
        route attaches id face infra (lib.parse_name (peer_node_prefix id)) noted

  -- The calls of the platform.
  pub data Call : Type 0 where
    beacon : (now : ℕ) → (attaches : Bool) → (id label face : Text) → ℤ → (infra_addr : Text) → Call
    addr : Text → Call
    socket : (fd : ℕ) → Call

  unfoldable pub step : Call → Node → Node
  step (beacon now attaches id label face rssi infra_addr) s =
      note_peer now attaches id label face rssi infra_addr s
  step (addr ipv4) s = set_infra_addr ipv4 s
  step (socket fd) s = set_infra_socket fd s

  abbrev pub run : List Call → Node → Node
  run [] s = s
  run (c ∷ cs) s = run cs (step c s)
