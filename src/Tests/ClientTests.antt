-- ===== src/Tests/ClientTests.antt =====
-- Runs of the client, and of the engine object's build, over the libraries of the other tests.
use ndn_mobile.Prelude.{ℕ, true, ◌≡◌, refl, some, [], ◌∷◌, inr}
use ndn_mobile.Text.{codes}
use ndn_mobile.Client.{
  Fetching, NdnClient, from_fd, set_congestion_strategy, choose, fetch_object, with_shared, parsed,
  or_new, to_ffi,
}
use ndn_mobile.Engine.{Texts, uplink_routes, route_to_peers}
use ndn_mobile.Mobile.{MobileEngine, tcp, serial, add_nexthop, emit}
use ndn_mobile.Mobile.Faces.{peers}
use ndn_mobile.Mobile.Routes.{route_to_peer}
use ndn_mobile.Tests.IdentityTests.{p}
use ndn_mobile.Tests.MobileTests
use ndn_mobile.Tests.MobileTests.{start}
use ndn_mobile.Tests.OfferTests

-- A consumer is its strategy, and an object is the strategy that it was fetched with.
abbrev pub fetching : Fetching p
fetching = record {
  CongestionStrategy = ℕ;
  default_strategy = 0;
  parse_strategy = λ t. some 1;
  Consumer = ℕ;
  new_consumer = 0;
  with_strategy = λ s c. s;
  strategy_of = λ c. c;
  Data = ℕ;
  data_name = λ d. codes "/a";
  data_content = λ d. some (d ∷ []);
  fetch = λ n c w. ((inr 0, c), w);
  get = λ n c w. ((inr [], c), w);
  fetch_object = λ n c w. ((inr (c ∷ []), c), w);
  fetch_verified = λ n v c w. (inr (c ∷ []), w);
  fetch_hinted = λ n v h c w. ((inr (c ∷ []), []), w);
  fetch_to_file = λ n v h fd c w. ((inr 0, []), w);
}

abbrev client : NdnClient p OfferTests.lib fetching
client =
    (set_congestion_strategy p OfferTests.lib fetching (codes "cubic")
      (from_fd p OfferTests.lib fetching 0)).1

-- The strategy that was set is not the one of the next object's fetch.
unset : (fetch_object p OfferTests.lib fetching (codes "/a") client).0 ≡ inr (0 ∷ [])
unfolding set_congestion_strategy choose fetch_object with_shared parsed or_new to_ffi from_fd
unset = refl

abbrev pub texts : Texts MobileTests.lib
texts = record {
  parse_name = λ t. some 3;
  parse_iface = λ t. some 4;
  parse_addr = λ t. some 5;
  default_profile = 0;
  accept_signed = 1;
  disabled = 2;
  parse_v6 = λ t port scope. some 6;
  parse_ip = λ t port. some 7;
}

abbrev peered : MobileEngine MobileTests.lib
peered = record start { network_peers = (1, tcp 5) ∷ (2, serial (codes "/dev/tty") 115200) ∷ [] }

-- The serial peer, whose id is 2, gets a default route beside the uplink.
serial_routed :
    (uplink_routes MobileTests.lib texts true peered).effects
    ≡ add_nexthop 0 2 0 ∷ add_nexthop 0 1 0 ∷ []
unfolding uplink_routes route_to_peers route_to_peer peers emit
serial_routed = refl
