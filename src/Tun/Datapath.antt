-- ===== src/Tun/Datapath.antt =====
-- `spawn_tunnel` and `TunHandle` of crates/ndn-mobile/src/tun.rs: the serve loop and the uplink
-- streamer share the uplink's state, the subscription loop keeps the downlink's. A step of a task
-- that would wait leaves the state as it is.
pub mod Uplink
pub mod Downlink
