-- ===== src/Engine/Object.antt =====
-- The engine object of crates/ndn-boltffi/src/engine.rs as a whole: the mobile engine, the identity
-- core over an in-process connection to it, and what the methods keep between calls.
use ndn_mobile.Prelude.{ℕ, Option, none, some, List, [], ◌⊎◌, inl, inr}
use ndn_mobile.Text.{Text}
use ndn_mobile.Types.{NdnError, invalid_name}
use ndn_mobile.Discovery.{DiscoveryState}
use ndn_mobile.Mobile
use ndn_mobile.Mobile.Build.{Outcome}
use ndn_mobile.Offer
use ndn_mobile.Offer.{OfferBoard}
use ndn_mobile.Radio.{Seam}
use ndn_mobile.Radio.Ble.{BleSeam}
use ndn_mobile.Identity
use ndn_mobile.Identity.{Parts, IdentityCore, Act}
use ndn_mobile.Identity.Announce.{Commands}
use ndn_mobile.Identity.Delegation.{Delegations, Issuing}
use ndn_mobile.Identity.Recovery.{Recoveries}
use ndn_mobile.Identity.Objects.{Publishing}
use ndn_mobile.Client.{Fetching}
use ndn_mobile.Client.Board.{Same}
use ndn_mobile.Engine.{NdnEngineConfig, Texts}
use ndn_mobile.Engine.Calls
use ndn_mobile.Engine.Calls.{Running}

-- One publication of a sync group, as the app library has it.
pub record Sample (p : Parts) : Type 0 where
  pub name : p.lib.Name
  pub publisher : Text
  pub seq : ℕ
  pub payload : Option (List ℕ)

-- All that the object is built on. A face of the app is its id.
pub record Host : Type 2 where
  pub mobile : Mobile.Library
  pub texts : Texts mobile
  pub p : Parts
  pub offers : Offer.Library
  pub fetching : Fetching p
  pub same : Same p offers
  pub publishing : Publishing p
  pub commands : Commands p
  pub delegations : Delegations p
  pub issuing : Issuing p delegations
  pub recoveries : Recoveries p
  -- A fresh consumer over the connection of a face.
  pub consumer_over : (face : ℕ) → fetching.Consumer
  -- The radio publishes and subscribes a service.
  pub announce_service : mobile.NanBackend → (service : Text) → p.lib.World → p.lib.World
  -- A name of the core as the mobile engine has it.
  pub mobile_name : p.lib.Name → mobile.Name
  -- A producer's loop over its face, until the connection closes. The handler gets a name.
  pub serve_over :
      (face : ℕ)
      → (Text → p.lib.World → Option (List ℕ) × p.lib.World)
      → p.lib.World
      → (Text ⊎ Unit {0}) × p.lib.World
  -- A sync group is joined over a face under a name of its own, or refused; then its publications, as
  -- they come, and the world after the last one.
  pub join_group :
      (face : ℕ)
      → (group : p.lib.Name) → (local_name : p.lib.Name) → p.lib.World
      → (Text ⊎ List (Sample p)) × p.lib.World
  -- The core's connection registers a prefix and begins to serve it.
  pub serve_prefix : (prefix : Text) → p.lib.World → p.lib.World

module _ (h : Host) where
  open h use {mobile, texts, p, offers, fetching}
  open p use {lib}
  open lib use {World}

  -- A relay that was spawned: its segments have 8 KiB, and the signer is the node's.
  pub record RelayJob : Type 0 where
    pub public_name : lib.Name
    pub source_prefix : lib.Name
    pub size : ℕ
    pub chunk : ℕ
    pub signer : lib.Signer

  -- The state of the same-AP tunnel stands in Infra.
  pub record NdnEngine : Type 0 where
    pub running : Running mobile texts
    pub core : IdentityCore p
    pub nan_seam : Option Seam
    pub ble_seam : Option BleSeam
    pub discovery : Option DiscoveryState
    pub offer_board : Option (OfferBoard offers)
    pub fetch_received : ℕ
    pub fetch_total : ℕ
    -- The relays that were spawned, newest first.
    pub relays : List RelayJob

  abbrev pub Call : Type 0 → Type 0
  Call A = NdnEngine → (NdnError ⊎ A) × NdnEngine

  unfoldable pub started : World → NdnError ⊎ Running mobile texts → NdnError ⊎ NdnEngine
  started w (inl e) = inl e
  started w (inr r) = inr (record {
    running = r;
    core = Identity.new p w;
    nan_seam = none;
    ble_seam = none;
    discovery = none;
    offer_board = none;
    fetch_received = 0;
    fetch_total = 0;
    relays = [];
  })

  unfoldable pub new : Outcome mobile → NdnEngineConfig → World → NdnError ⊎ NdnEngine
  unfolding started
  new out config w = started w (Calls.new mobile texts out config)

  -- A method that the core has.
  unfoldable pub on_core : {A : Type 0} → Act p A → Call A
  on_core m e = let (r, s) = m e.core in (r, record e { core = s })

  -- A method that reaches the mobile engine.
  unfoldable pub on_running :
      {A : Type 0} → (Running mobile texts → (NdnError ⊎ A) × Running mobile texts) → Call A
  on_running m e = let (r, s) = m e.running in (r, record e { running = s })

  unfoldable pub parsed : {A : Type 0} → Text → (lib.Name → Call A) → Call A
  parsed text k e = elim (p.parse text) [
    | none ↦ (inl (invalid_name text), e)
    | some name ↦ k name e
  ]
