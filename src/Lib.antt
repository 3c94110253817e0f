-- ===== src/Lib.antt =====
-- Verification library of the ndn-mobile workspace: a mobile NDN node (crates/ndn-mobile) and its
-- foreign function surface (crates/ndn-boltffi).
--
-- Parts, and the files that model them:
--
-- - Codec (crates/ndn-boltffi/src/codec.rs): `ndnts_frame` cuts a packet for the BLE link, and
--   `NdntsReassembler` (`feed`, `reset`) puts it together, with `parse_varnumber` and
--   `tlv_packet_end`; `patch_nonce` is there too. `frame_loop` runs on fuel, one round for each byte
--   and one more; Frame shows that it always returns. PacketEnd, Frame, Reassembly, Stream and Nonce
--   hold the proofs. A reassembler's caller feeds it fragments one by one: `feed_all`. Packets is
--   `encode_interest`, `decode_data` and the NDNLPv2 envelopes over the packet library.
-- - Tun (crates/ndn-mobile/src/tun.rs): `TunConfig`; Flow is `parse_ip_flow`; Datapath/Uplink is the
--   serve loop, the streamer and `TunHandle::inject` of `spawn_tunnel` over one state, and
--   Datapath/Downlink the subscription loop and `TunHandle::next`. A task's await points are the
--   states between steps, and what ends an await is an event.
-- - Relay (crates/ndn-mobile/src/object_relay.rs): the serve handler of `spawn_object_relay`,
--   `backward_refetch` and `run_relay` over their shared state; a run is any interleaving of their
--   turns. What the packet, object and signing libraries do is the record `Library`, a parameter.
-- - Discovery (crates/ndn-boltffi/src/discovery.rs): `DiscoveryState` with `note_peer` and
--   `snapshot_json`, whose order of iteration is a parameter; Aging and Presence hold the proofs.
--   Json is `push_json_str`, and Json/Reader a reader of what it writes.
-- - Infra (crates/ndn-boltffi/src/engine.rs): `note_peer`, `set_infra_addr`, `set_infra_socket` and
--   `maybe_attach_infra_tunnel` of `NdnEngine` over one state, which holds the presence table of
--   Discovery. The attach's answer comes with the beacon. Descriptors and Subnet hold the proofs.
-- - Radio (crates/ndn-boltffi/src/wifi_aware.rs): the receive side of a seam, `NanSeam` and
--   `FfiNanBackend`; Ble (crates/ndn-boltffi/src/ble.rs) is `BleSeam`, which is a queue alone.
--   Buffers and Ble/Order hold the proofs.
-- - Offer (crates/ndn-boltffi/src/offer.rs): `OfferBoard`, its manifest and handlers; Offer/Calls the
--   calls (`add_offer`, `add_offer_file`, `add_offer_file_streamed`, `remove_offer`, `list_offers`);
--   Offer/Content the stream of `serve_content_stream`, handler and streamer over one state. Offer
--   names its peers' prefixes by Discovery. Manifest, Offered and Content/Order hold the proofs.
-- - Enroll (crates/ndn-mobile/src/enroll.rs): errors, settings and the monad of calls against a world;
--   Exchange the NDNCERT exchanges, Identity the ways to enroll and `generate_identity`, Safebag
--   `to_safebag` and `load_identity`, Hex `hex_encode`. Yields, Provenance and Persistence hold the
--   proofs. The libraries' sessions, keys and bags are the records `Library`, `Keys` and `Bags`.
-- - Mobile (crates/ndn-mobile/src/engine.rs): `MobileEngine` as a record with the calls of the
--   forwarder that its methods make. Builder is `MobileEngineBuilder` with all features, Build and
--   Build/Engine its `build`; Faces, Routes and Bulk are the methods, Calls any sequence of them;
--   Supervisor is the task of `build_peer_face`. Pins, with Map and Run, holds the proofs about
--   strategies and bulk faces, Build/Steps and Build/Fresh those about a new engine.
-- - Engine (crates/ndn-boltffi/src/engine.rs): `build_engine` from a configuration to the builder of
--   Mobile, and in Engine/Calls the methods of `NdnEngine` that reach the mobile engine. Object is
--   `NdnEngine` as a whole, over the parameters of the record `Host`; Fetch, Radios, Serving,
--   Producers and Core (the identity core's calls) are its methods, and Run any sequence of them.
--   Moves and Keeps hold what the steps keep; Connections, Consumers and OpenFaces the proofs about
--   faces and shutdown, with Mobile/Allocation.
-- - Client (crates/ndn-boltffi/src/client.rs): the fetches of `NdnClient`, in Client/Board its offer
--   board, which is that of Offer; Client/Core is the identity core's calls, Client/Serving `serve`.
-- - Dashboard (crates/ndn-boltffi/src/dashboard.rs): `NdnDashboard` over the dashboard library, whose
--   records are the abstract types of Model; Views is what the host sees.
-- - Identity (crates/ndn-boltffi/src/identity_core.rs): `IdentityCore` as a record, each method as a
--   call that may fail, change the record and the world. Trust, Owner, Load, Enclave, Responder,
--   Announce, Delegation, Recovery and Objects are the methods, built with the `identity` feature;
--   Load and Enclave enroll by Enroll. Serving is `serve_remote_signer`, its loop and the tasks that
--   it spawns over one state, with other calls between any two of their turns.
--   Gate, Atomic, Serving/Founded and Serving/Provenance hold proofs.
-- - RemoteSigner (crates/ndn-boltffi/src/remote_signer_client.rs): `from_cert`, `sign`,
--   `decode_reply` and `key_name_from_cert`; Correlation and KeyName hold the proofs.
-- - Types (crates/ndn-boltffi/src/types.rs): errors and the views of Data, samples and contexts;
--   Envelope is `NdnTrust` (crates/ndn-boltffi/src/trust.rs).
-- - Text: Rust's `str` as a list of scalar values, its order, `BTreeMap`, decimal numbers. `digits`
--   runs on fuel, a round for each digit, given the number's value and one.
-- - Prelude: names passed on from the libraries, lists and bytes. Tests: runs and instances.
--
-- Bytes and words are native numbers; `usize` and `u64` sums that may overflow are written modulo
-- 2 ^ 64, as a release build computes them on the 64-bit targets. Data of outside types (names,
-- packets) are type parameters.
--
-- Not modelled: the face of crates/ndn-mobile/src/bluetooth.rs, which only builds a library's face;
-- the demo program examples/ripple-peer; the dial of each transport, registrations with the
-- forwarder, log lines and timing counters of the modelled parts.
pub mod Prelude
pub mod Codec
pub mod Tun
pub mod Relay
pub mod Text
pub mod Types
pub mod Json
pub mod Client
pub mod Dashboard
pub mod Engine
pub mod Identity
pub mod Mobile
pub mod RemoteSigner
pub mod Radio
pub mod Infra
pub mod Discovery
pub mod Offer
pub mod Enroll
mod Tests
