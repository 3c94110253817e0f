-- ===== src/Engine.antt =====
-- The engine object of crates/ndn-boltffi/src/engine.rs: how it is built from a configuration.
pub mod Calls
pub mod Object
pub mod Fetch
pub mod Radios
pub mod Serving
pub mod Producers
pub mod Core
pub mod Run
pub mod Moves
pub mod Keeps
pub mod Connections
pub mod Consumers
pub mod OpenFaces
use ndn_mobile.Prelude.{
  ℕ, Bool, true, false, ◌||◌, if◌then◌else◌, Option, none, some, List, [], ◌∷◌, ◌⊎◌, inl, inr,
}
use ndn_mobile.Text.{Text}
use ndn_mobile.Types.{NdnError, engine, invalid_name, invalid_address}
use ndn_mobile.Mobile
use ndn_mobile.Mobile.{MobileEngine, MobileStrategy}
use ndn_mobile.Mobile.Builder.{
  MobileEngineBuilder, default, cs_capacity_mb, pipeline_threads, security_profile, with_management,
  with_udp_multicast, with_tcp_peer, with_serial, with_discovery, with_persistent_cs, with_strategy,
}
use ndn_mobile.Mobile.Build.{Outcome}
use ndn_mobile.Mobile.Build.Engine.{build}
use ndn_mobile.Mobile.Faces.{PeerRef, peers}
use ndn_mobile.Mobile.Routes.{route_to_multicast, route_to_peer}

pub data NdnSecurityProfile : Type 0 where
  chain : NdnSecurityProfile
  accept_signed : NdnSecurityProfile
  disabled : NdnSecurityProfile

pub data NdnFaceSpec : Type 0 where
  multicast_face : (iface : Text) → NdnFaceSpec
  uplink : (address : Text) → NdnFaceSpec
  serial_face : (port : Text) → (baud : ℕ) → NdnFaceSpec

pub record NdnEngineConfig : Type 0 where
  pub cs_capacity_mb : ℕ
  pub security_profile : NdnSecurityProfile
  pub faces : List NdnFaceSpec
  pub node_name : Option Text
  pub pipeline_threads : ℕ
  pub persistent_cs_path : Option Text

-- What the texts of the surface parse to.
pub record Texts (lib : Mobile.Library) : Type 0 where
  pub parse_name : Text → Option lib.Name
  pub parse_iface : Text → Option lib.Iface
  pub parse_addr : Text → Option lib.SocketAddr
  -- `SecurityProfile` by its three variants.
  pub default_profile : lib.SecurityProfile
  pub accept_signed : lib.SecurityProfile
  pub disabled : lib.SecurityProfile
  -- An IPv6 address with a port and a scope, and any address with a port, as 16 bits.
  pub parse_v6 : Text → (port scope_id : ℕ) → Option lib.SocketAddr
  pub parse_ip : Text → (port : ℕ) → Option lib.SocketAddr

unfoldable pub is_multicast : NdnFaceSpec → Bool
is_multicast (multicast_face iface) = true
is_multicast _ = false

unfoldable pub is_uplink : NdnFaceSpec → Bool
is_uplink (uplink address) = true
is_uplink _ = false

unfoldable pub any : (NdnFaceSpec → Bool) → List NdnFaceSpec → Bool
any p [] = false
any p (f ∷ fs) = p f || any p fs

module _ (lib : Mobile.Library) (texts : Texts lib) where
  abbrev pub Building : Type 0
  Building = NdnError ⊎ MobileEngineBuilder lib

  unfoldable pub into_security_profile : NdnSecurityProfile → lib.SecurityProfile
  into_security_profile chain = texts.default_profile
  into_security_profile accept_signed = texts.accept_signed
  into_security_profile disabled = texts.disabled

  unfoldable pub parsed : {A B : Type 0} → NdnError → Option A → (A → NdnError ⊎ B) → NdnError ⊎ B
  parsed e none f = inl e
  parsed e (some a) f = f a

  unfoldable pub and_then : {A B : Type 0} → NdnError ⊎ A → (A → NdnError ⊎ B) → NdnError ⊎ B
  and_then (inl e) f = inl e
  and_then (inr a) f = f a

  unfoldable pub add_face : NdnFaceSpec → MobileEngineBuilder lib → Building
  add_face (multicast_face iface) b =
      parsed (invalid_address iface) (texts.parse_iface iface)
        (λ a. inr (with_udp_multicast lib a b))
  add_face (uplink address) b =
      parsed (invalid_address address) (texts.parse_addr address) (λ a. inr (with_tcp_peer lib a b))
  add_face (serial_face port baud) b = inr (with_serial lib port baud b)

  unfoldable pub add_faces : List NdnFaceSpec → MobileEngineBuilder lib → Building
  add_faces [] b = inr b
  add_faces (f ∷ fs) b = and_then (add_face f b) (add_faces fs)

  unfoldable pub add_discovery : Option Text → MobileEngineBuilder lib → Building
  add_discovery none b = inr b
  add_discovery (some node_name) b =
      parsed (invalid_name node_name) (texts.parse_name node_name)
        (λ n. inr (with_discovery lib n b))

  unfoldable pub add_store : Option Text → MobileEngineBuilder lib → MobileEngineBuilder lib
  add_store none b = b
  add_store (some path) b = with_persistent_cs lib path b

  unfoldable pub first_builder : NdnEngineConfig → MobileEngineBuilder lib
  first_builder config = with_management lib (
      security_profile lib (into_security_profile config.security_profile) (
        pipeline_threads lib config.pipeline_threads
          (cs_capacity_mb lib config.cs_capacity_mb (default lib))))

  unfoldable pub add_strategy : Bool → MobileEngineBuilder lib → MobileEngineBuilder lib
  add_strategy had_multicast b =
      if had_multicast then with_strategy lib MobileStrategy.multicast b else b

  -- The builder that a configuration stands for.
  unfoldable pub configured : NdnEngineConfig → Building
  configured config = and_then (add_faces config.faces (first_builder config)) (λ b.
      and_then (add_discovery config.node_name b) (λ b.
        inr (add_strategy (any is_multicast config.faces) (add_store config.persistent_cs_path b))))

  unfoldable pub default_route : Bool → MobileEngine lib → MobileEngine lib
  default_route had_multicast e = if had_multicast then (route_to_multicast lib lib.root e).1 else e

  unfoldable pub route_to_peers : List (PeerRef lib) → MobileEngine lib → MobileEngine lib
  route_to_peers [] e = e
  route_to_peers (peer ∷ rest) e = route_to_peers rest (route_to_peer lib lib.root peer 0 e)

  -- To every peer, serial ones too, where there is an uplink.
  unfoldable pub uplink_routes : Bool → MobileEngine lib → MobileEngine lib
  uplink_routes had_uplink e = if had_uplink then route_to_peers (peers lib e) e else e

  unfoldable pub routed : NdnEngineConfig → Text ⊎ MobileEngine lib → NdnError ⊎ MobileEngine lib
  routed config (inl e) = inl (engine e)
  routed config (inr e) =
      inr (
        uplink_routes (any is_uplink config.faces)
          (default_route (any is_multicast config.faces) e))

  unfoldable pub build_engine : Outcome lib → NdnEngineConfig → NdnError ⊎ MobileEngine lib
  build_engine out config = and_then (configured config) (λ b. routed config (build lib out b))
