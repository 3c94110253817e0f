-- ===== src/Tests/InfraTests.antt =====
-- Runs of the same-AP tunnel.
use ndn_mobile.Prelude.{ℕ, ◌≡◌, ◌+◌, refl, true, some, none, List, [], ◌∷◌}
use ndn_mobile.Text.{codes, cmp}
use ndn_mobile.Text.Map.{lookup, insert, remove}
use ndn_mobile.Text.Print.{pos, decimal}
use ndn_mobile.Infra.{
  Parsers, Node, Call, beacon, addr, socket, push_net, net, both_same, same_subnet24, equal,
  non_empty, set_infra_addr, close, set_infra_socket, adopt, reserve, reach, from_addr,
  maybe_attach_infra_tunnel, record_peer, tunnel, route, note_peer, step, run,
}
use ndn_mobile.Infra.Descriptors.{places, count_given, places-run}

abbrev lib : Parsers
lib = record {
  Name = List ℕ;
  SocketAddr = List ℕ;
  parse_addr = λ t. some t;
  parse_name = λ t. some t;
}

abbrev node : Node lib
node = record {
  discovery = none;
  inner = true;
  routes = [];
  attached = [];
  local_infra_addr = none;
  infra_peers = [];
  infra_socket_fd = none;
  closed = [];
}

-- The second socket replaces the first, which no beacon has taken; the third peer finds none.
abbrev some_calls : List (Call lib)
some_calls =
    addr (codes "10.0.0.1")
    ∷ socket 4
    ∷ beacon 1 true (codes "far") [] (codes "ble") (pos 0) (codes "10.0.1.2")
    ∷ socket 5
    ∷ beacon 2 true (codes "bob") [] (codes "ble") (pos 0) (codes "10.0.0.2")
    ∷ beacon 3 true (codes "eve") [] (codes "ble") (pos 0) (codes "10.0.0.3")
    ∷ []

tunnels :
    let s = run lib some_calls node in
    (s.attached ≡ (codes "/ndn/node/bob", 5, codes "10.0.0.2:7656") ∷ [])
    × (s.closed ≡ 4 ∷ [])
    × (s.infra_peers ≡ (codes "bob", tt) ∷ [])
unfolding step note_peer route tunnel maybe_attach_infra_tunnel from_addr reach reserve adopt
    set_infra_addr set_infra_socket close equal non_empty same_subnet24 both_same net push_net
    record_peer cmp lookup insert remove decimal ndn_mobile.Discovery.peer_node_prefix
tunnels = (refl, refl, refl)

places-run_example :
    places lib 4 (run lib some_calls node) ≡ count_given lib 4 some_calls + places lib 4 node
places-run_example = places-run lib 4 some_calls node
