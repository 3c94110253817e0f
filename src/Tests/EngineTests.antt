-- ===== src/Tests/EngineTests.antt =====
-- Runs of the engine object over the libraries of the other tests.
use ndn_mobile.Prelude.{ℕ, ◌≡◌, refl, true, none, some, All, List, [], ◌∷◌, ◌⊎◌, inl, inr}
use ndn_mobile.Text.{Text, codes}
use ndn_mobile.Types.{NdnError}
use ndn_mobile.Identity.Announce.{Commands}
use ndn_mobile.Identity.Delegation.{Delegations, Issuing}
use ndn_mobile.Identity.Objects.{Publishing}
use ndn_mobile.Identity.Recovery.{Recoveries}
use ndn_mobile.Mobile.{alloc_id, emit}
use ndn_mobile.Mobile.Builder.{
  default, cs_capacity_mb, pipeline_threads, security_profile, with_management,
}
use ndn_mobile.Mobile.Build.{and_then, nan_discovery}
use ndn_mobile.Mobile.Build.Engine.{build, finish, built}
use ndn_mobile.Mobile.Faces.{new_app_handle, register_prefix}
use ndn_mobile.Client.Board.{Same}
use ndn_mobile.Engine
use ndn_mobile.Engine.{NdnEngineConfig, build_engine}
use ndn_mobile.Engine.Calls
use ndn_mobile.Engine.Object
use ndn_mobile.Engine.Object.{Host, NdnEngine, new}
use ndn_mobile.Client.{to_ffi}
use ndn_mobile.Engine.Calls.{on_engine, alloc_app_handle}
use ndn_mobile.Engine.Object.{on_running, parsed}
use ndn_mobile.Engine.Producers.{
  register_producer, register_producer_internal, serve, producing, subscribe, subscribing, joined,
  on_samples,
}
use ndn_mobile.Engine.Fetch.{
  with_consumer, over, finished, get, store_progress, at_once, quiet, as_is,
}
use ndn_mobile.Engine.Run.{Event, serves, subscribes, shuts_down, gets, step, after}
use ndn_mobile.Engine.Connections.{app_face, IsRefusing, consumes_over_app_face, shutdown_is_final}
use ndn_mobile.Engine.Consumers.{all_consumed}
use ndn_mobile.Engine.OpenFaces.{IsDistinct, all_opened, opened-IsDistinct}
use ndn_mobile.Tests.ClientTests.{fetching, texts}
use ndn_mobile.Tests.IdentityTests.{p, loaded}
use ndn_mobile.Tests.MobileTests
use ndn_mobile.Tests.OfferTests

abbrev publishing : Publishing p
publishing = record {
  Prepared = Text;
  build = λ n content chunk. n;
  answer_interest = λ prepared n signer w. (inr none, w);
  serve = λ n handler w. (inr tt, w);
}

abbrev commands : Commands p
commands = record {
  Interest = Text;
  Reply = List ℕ;
  encode_params = λ n. n;
  rib = [];
  register = [];
  from_components = λ cs. [];
  random_reflexive_name = λ w. ([], w);
  build = λ n t r k s w. (inr n, w);
  fetch_serving = λ r body i t w. (inr [], w);
  content = λ r. none;
  decode_status = λ b. inr 200;
}

abbrev delegations : Delegations p
delegations = record {
  NamePattern = Text;
  parse_pattern = λ t. inr t;
  pattern_text = λ t. t;
  Delegation = List ℕ;
  encode = λ d. d;
  decode = λ d. inr d;
  DelegatedSigner = Text;
}

abbrev issuing : Issuing p delegations
issuing = record {
  issue = λ n scope principal. inr n;
  verify = λ d k w. (inl (codes "no"), w);
  from_delegation = λ s d k w. (inr s, w);
  sign_scoped = λ s n r w. (inr r, w);
}

abbrev recoveries : Recoveries p
recoveries = record {
  random = λ n w. (inr [], w);
  ed25519_from_seed = λ seed n. n;
  seed_to_pkcs8 = λ seed. inr seed;
  recovery_key_name = codes "/recovery";
  public_key_bytes = λ k. k;
  of_callback = λ n f. n;
  KeyChain = Text;
  into_keychain = λ n. n;
  from_parts = λ s n k. n;
  Recoverable = Text;
  create = λ k rk. inr k;
  recover_from_bundle = λ b k s w. (inr k, w);
  export_recovery_bundle = λ r. r;
  Revocation = Text;
  self_revoke = λ k r now. inr k;
  encode_revocation = λ r. r;
  decode_revocation = λ b. inr b;
  verify_revocation = λ r k w. (inr tt, w);
  revocation_view =
      λ r. record { revoked = r; reason = []; revoked_at_ms = 0; self_revocation = true };
}

abbrev same : Same p OfferTests.lib
same = record { name = λ n. n; signer = λ s. tt; file = λ fd. fd }

-- A consumer is the face that it runs over.
abbrev host : Host
host = record {
  mobile = MobileTests.lib;
  texts = texts;
  p = p;
  offers = OfferTests.lib;
  fetching = fetching;
  same = same;
  publishing = publishing;
  commands = commands;
  delegations = delegations;
  issuing = issuing;
  recoveries = recoveries;
  consumer_over = λ face. face;
  announce_service = λ backend service w. w;
  mobile_name = λ n. 3;
  serve_over = λ face handler w. (inr tt, w);
  join_group = λ face group local_name w. (inr [], w);
  serve_prefix = λ prefix w. w;
}

abbrev config : NdnEngineConfig
config = record {
  cs_capacity_mb = 8;
  security_profile = Engine.disabled;
  faces = [];
  node_name = none;
  pipeline_threads = 1;
  persistent_cs_path = none;
}

abbrev up : NdnEngine host
up = record {
  running = record {
    inner = some MobileTests.start;
    default_handle = some 0;
    consumer_conn = none;
  };
  core = loaded;
  nan_seam = none;
  ble_seam = none;
  discovery = none;
  offer_board = none;
  fetch_received = 0;
  fetch_total = 0;
  relays = [];
}

abbrev engine_of : NdnError ⊎ NdnEngine host → NdnEngine host
engine_of (inr e) = e
engine_of (inl error) = up

abbrev object : NdnEngine host
object = engine_of (new host MobileTests.outcome config 0)

starts : new host MobileTests.outcome config 0 ≡ inr object
unfolding new Calls.new Calls.started Object.started build_engine Engine.configured Engine.and_then
    Engine.add_faces Engine.add_discovery Engine.routed build and_then finish built nan_discovery
    Engine.add_strategy Engine.any Engine.add_store Engine.first_builder with_management
    security_profile pipeline_threads cs_capacity_mb default
starts = refl

abbrev events : List (Event host)
events =
    serves (codes "/a") (λ n w. (none, w))
    ∷ gets (codes "/b")
    ∷ subscribes (codes "/g") 7 (λ s w. w)
    ∷ shuts_down
    ∷ serves (codes "/c") (λ n w. (none, w))
    ∷ []

-- Two ids are allocated before; the producer after the shutdown has none.
faces_are_new : all_opened host events up ≡ 2 ∷ 3 ∷ []
unfolding step serve producing register_producer_internal register_producer on_running on_engine
    new_app_handle register_prefix alloc_id emit parsed get with_consumer over finished to_ffi
    Calls.with_consumer Calls.connection Calls.opened Calls.take_consumer_handle Calls.take_handle
    at_once quiet as_is store_progress subscribe subscribing joined on_samples alloc_app_handle
    Calls.shutdown
faces_are_new = refl

opened-IsDistinct_example :
    All (λ f. f ≡ app_face host) (all_consumed host events object)
    × IsDistinct host (app_face host ∷ all_opened host events object)
opened-IsDistinct_example =
    opened-IsDistinct host MobileTests.outcome config 0 object events starts (λ m n q. q)

consumes_over_app_face_example :
    (with_consumer host
      (at_once host)
      (quiet host (as_is host) (fetching.fetch_object (codes "/f")))
      (after host events object)).0
    ≡ inr (inr (0 ∷ []))
unfolding quiet as_is at_once
consumes_over_app_face_example =
    consumes_over_app_face host MobileTests.outcome config 0 object events (at_once host)
      (quiet host (as_is host) (fetching.fetch_object (codes "/f"))) starts (λ s. refl)

shutdown_is_final_example :
    IsRefusing host (after host events (step host shuts_down (after host events object)))
shutdown_is_final_example =
    shutdown_is_final host MobileTests.outcome config 0 object events events starts
