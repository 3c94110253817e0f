-- ===== src/Discovery.antt =====
-- The presence table of crates/ndn-boltffi/src/discovery.rs: what the radios observe, and the
-- dataset that lists it. An `Instant` is a number of nanoseconds.
pub mod Aging
pub mod Presence
use ndn_mobile.Prelude.{
  ℕ, ◌-◌, ◌/◌, Bool, true, false, ◌||◌, ltb, if◌then◌else◌, Option, none, some, List, [], ◌∷◌, ◌++◌,
  null,
}
use ndn_mobile.Text.{Text, codes, same}
use ndn_mobile.Text.Map.{lookup, insert}
use ndn_mobile.Text.Print.{ℤ, decimal, signed}
use ndn_mobile.Json.{push_json_str}

abbrev pub node_prefix : Text
node_prefix = codes "/ndn/node"

-- The routable prefix of a peer.
unfoldable pub peer_node_prefix : Text → Text
peer_node_prefix id = node_prefix ++ codes "/" ++ id

-- 30 seconds.
abbrev pub peer_ttl : ℕ
peer_ttl = 30000000000

pub record PeerEntry : Type 0 where
  pub label : Text
  -- A `BTreeSet` is a map to the unit.
  pub faces : List (Text × Unit {0})
  pub rssi_dbm : ℤ
  pub infra_addr : Option Text
  pub last_seen : ℕ

pub record DiscoveryState : Type 0 where
  pub local_id : Text
  pub local_label : Text
  pub peers : List (Text × PeerEntry)

unfoldable pub new : Text → Text → DiscoveryState
new local_id local_label = record { local_id = local_id; local_label = local_label; peers = [] }

unfoldable pub fresh_entry : ℕ → Text → ℤ → PeerEntry
fresh_entry now label rssi = record {
  label = label;
  faces = [];
  rssi_dbm = rssi;
  infra_addr = none;
  last_seen = now;
}

unfoldable pub or_insert_with : Option PeerEntry → PeerEntry → PeerEntry
or_insert_with none e = e
or_insert_with (some e) _ = e

unfoldable pub or_else : Option Text → Option Text → Option Text
or_else none old = old
or_else (some a) old = some a

unfoldable pub refresh : ℕ → Text → Text → ℤ → Option Text → PeerEntry → PeerEntry
refresh now label face rssi infra_addr entry = record {
  label = if null label then entry.label else label;
  faces = if null face then entry.faces else insert face tt entry.faces;
  rssi_dbm = rssi;
  infra_addr = or_else infra_addr entry.infra_addr;
  last_seen = now;
}

-- `now` is what the clock reads, `id` and the rest what a radio has heard.
unfoldable pub note_peer :
    ℕ → Text → Text → Text → ℤ → Option Text → DiscoveryState → DiscoveryState
note_peer now id label face rssi infra_addr s =
    if null id || same id s.local_id
    then s
    else let entry = or_insert_with (lookup id s.peers) (fresh_entry now label rssi) in
      record s { peers = insert id (refresh now label face rssi infra_addr entry) s.peers }

unfoldable pub alive : ℕ → PeerEntry → Bool
alive now e = ltb (now - e.last_seen) peer_ttl

unfoldable pub retain : ℕ → List (Text × PeerEntry) → List (Text × PeerEntry)
retain now [] = []
retain now ((id, e) ∷ m) = let rest = retain now m in if alive now e then (id, e) ∷ rest else rest

unfoldable pub push_faces : Text → Bool → List (Text × Unit {0}) → Text
push_faces out first [] = out
push_faces out first ((f, _) ∷ fs) =
    push_faces (push_json_str (if first then out else out ++ codes ",") f) false fs

unfoldable pub push_infra : Text → Option Text → Text
push_infra out none = out
push_infra out (some addr) = push_json_str (out ++ codes ",\"infra\":") addr

unfoldable pub push_peer : ℕ → Text → Text → PeerEntry → Text
push_peer now out id e =
    let out = push_json_str (out ++ codes "{\"id\":") id in
    let out = push_json_str (out ++ codes ",\"label\":") e.label in
    let out = push_faces (out ++ codes ",\"faces\":[") true e.faces in
    let out = out ++ codes "],\"rssi\":" ++ signed e.rssi_dbm in
    let out = out ++ codes ",\"age_ms\":" ++ decimal ((now - e.last_seen) / 1000000) in
    push_infra out e.infra_addr ++ codes "}"

unfoldable pub push_peers : ℕ → Text → Bool → List (Text × PeerEntry) → Text
push_peers now out first [] = out
push_peers now out first ((id, e) ∷ m) =
    push_peers now (push_peer now (if first then out else out ++ codes ",") id e) false m

-- The table without its stale peers, and what the dataset says of it. `iter` is the order in which
-- the hash map gives its entries.
unfoldable pub snapshot_json :
    (List (Text × PeerEntry) → List (Text × PeerEntry)) → ℕ → DiscoveryState → Text × DiscoveryState
snapshot_json iter now s =
    let peers = retain now s.peers in
    let out = push_json_str (codes "{\"self\":{\"id\":") s.local_id in
    let out = push_json_str (out ++ codes ",\"label\":") s.local_label in
    let out = push_peers now (out ++ codes "},\"peers\":[") true (iter peers) in
    (out ++ codes "]}", record s { peers = peers })

-- What reaches the state, with the time of each: a beacon from a radio, or an Interest for the
-- dataset.
pub data Event : Type 0 where
  beacon : (now : ℕ) → (id label face : Text) → (rssi : ℤ) → (infra_addr : Option Text) → Event
  interest : (now : ℕ) → Event

unfoldable pub step :
    (List (Text × PeerEntry) → List (Text × PeerEntry)) → Event → DiscoveryState → DiscoveryState
step iter (beacon now id label face rssi infra_addr) s =
    note_peer now id label face rssi infra_addr s
step iter (interest now) s = (snapshot_json iter now s).1

abbrev pub run :
    (List (Text × PeerEntry) → List (Text × PeerEntry))
    → List Event
    → DiscoveryState
    → DiscoveryState
run iter [] s = s
run iter (e ∷ es) s = run iter es (step iter e s)
