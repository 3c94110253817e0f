-- ===== src/Client.antt =====
-- The client of crates/ndn-boltffi/src/client.rs: fetches over one shared consumer, and the offer
-- board, over the identity core.
pub mod Board
pub mod Core
pub mod Serving
use ndn_mobile.Prelude.{ℕ, Bool, true, Option, none, some, List, [], ◌∷◌, ◌⊎◌, inl, inr}
use ndn_mobile.Text.{Text, codes}
use ndn_mobile.Types.{NdnError, AppError, NdnData, from_packet, engine, invalid_name, from_app}
use ndn_mobile.Offer
use ndn_mobile.Offer.{OfferBoard}
use ndn_mobile.Identity
use ndn_mobile.Identity.{Parts, IdentityCore, Act}
use ndn_mobile.Identity.Trust.{build_validator}

-- What the app library does to fetch. A fetch reports its progress as pairs of the segments received
-- and in all; a file is what a descriptor is adopted as.
pub record Fetching (p : Parts) : Type 1 where
  pub CongestionStrategy : Type 0
  pub default_strategy : CongestionStrategy
  pub parse_strategy : Text → Option CongestionStrategy
  pub Consumer : Type 0
  pub new_consumer : Consumer
  pub with_strategy : CongestionStrategy → Consumer → Consumer
  pub strategy_of : Consumer → CongestionStrategy
  pub Data : Type 0
  pub data_name : Data → p.lib.Name
  pub data_content : Data → Option (List ℕ)
  pub fetch : p.lib.Name → Consumer → p.lib.World → ((AppError ⊎ Data) × Consumer) × p.lib.World
  pub get : p.lib.Name → Consumer → p.lib.World → ((AppError ⊎ List ℕ) × Consumer) × p.lib.World
  pub fetch_object :
      p.lib.Name → Consumer → p.lib.World → ((AppError ⊎ List ℕ) × Consumer) × p.lib.World
  pub fetch_verified :
      p.lib.Name → p.Validator → Consumer → p.lib.World → (AppError ⊎ List ℕ) × p.lib.World
  pub fetch_hinted :
      p.lib.Name
      → p.Validator
      → (hint : p.lib.Name) → Consumer
      → p.lib.World
      → ((AppError ⊎ List ℕ) × List (ℕ × ℕ)) × p.lib.World
  pub fetch_to_file :
      p.lib.Name
      → p.Validator
      → (hint : p.lib.Name) → (fd : ℕ) → Consumer
      → p.lib.World
      → ((AppError ⊎ ℕ) × List (ℕ × ℕ)) × p.lib.World

module _ (p : Parts) (offers : Offer.Library) (f : Fetching p) where
  open p use {lib}
  open lib use {World, Name}
  open f use {CongestionStrategy, Consumer}

  pub record NdnClient : Type 0 where
    pub core : IdentityCore p
    pub consumer : Option Consumer
    pub offer_board : Option (OfferBoard offers)
    pub fetch_received : ℕ
    pub fetch_total : ℕ
    pub cc_strategy : CongestionStrategy

  abbrev pub Call : Type 0 → Type 0
  Call A = NdnClient → (NdnError ⊎ A) × NdnClient

  -- Over the connection that reaches the world.
  unfoldable pub from_fd : World → NdnClient
  from_fd w = record {
    core = Identity.new p w;
    consumer = none;
    offer_board = none;
    fetch_received = 0;
    fetch_total = 0;
    cc_strategy = f.default_strategy;
  }

  -- A method that the core has.
  unfoldable pub on_core : {A : Type 0} → Act p A → Call A
  on_core m c = let (r, s) = m c.core in (r, record c { core = s })

  unfoldable pub parsed : {A : Type 0} → Text → (Name → Call A) → Call A
  parsed text k c = elim (p.parse text) [
    | none ↦ (inl (invalid_name text), c)
    | some name ↦ k name c
  ]

  unfoldable pub choose : Option CongestionStrategy → Call Bool
  choose none c = (inl (engine (codes "congestion strategy must be 'aimd' or 'cubic'")), c)
  choose (some strategy) c = (inr true, record c { cc_strategy = strategy })

  unfoldable pub set_congestion_strategy : Text → Call Bool
  set_congestion_strategy strategy = choose (f.parse_strategy strategy)

  unfoldable pub or_new : Option Consumer → Consumer
  or_new none = f.new_consumer
  or_new (some consumer) = consumer

  unfoldable pub to_ffi : {A : Type 0} → Text → AppError ⊎ A → NdnError ⊎ A
  to_ffi name (inl e) = inl (from_app e name)
  to_ffi name (inr a) = inr a

  -- A fetch over the shared consumer.
  unfoldable pub with_shared :
      {A : Type 0} → Text → (Name → Consumer → World → ((AppError ⊎ A) × Consumer) × World) → Call A
  with_shared name run = parsed name (λ n c.
      let ((r, consumer), w) = run n (or_new c.consumer) c.core.world in
      (to_ffi name r, record c { core = record c.core { world = w }; consumer = some consumer }))

  unfoldable pub received : AppError ⊎ f.Data → AppError ⊎ NdnData
  received (inl e) = inl e
  received (inr packet) = inr (from_packet (λ d. p.to_string (f.data_name d)) f.data_content packet)

  unfoldable pub fetch : Text → Call NdnData
  unfolding received
  fetch name = with_shared name (λ n consumer w.
      let ((r, consumer'), w') = f.fetch n consumer w in ((received r, consumer'), w'))

  unfoldable pub get : Text → Call (List ℕ)
  get name = with_shared name f.get

  unfoldable pub fetch_object : Text → Call (List ℕ)
  fetch_object name = with_shared name f.fetch_object

  unfoldable pub demux_consumer : CongestionStrategy → Consumer
  demux_consumer strategy = f.with_strategy strategy f.new_consumer

  -- The shared consumer is spent, and replaced by one of the same strategy.
  unfoldable pub fetch_object_verified : Text → Call (List ℕ)
  fetch_object_verified name = parsed name (λ n c.
      let consumer = or_new c.consumer in
      let (r, w) = f.fetch_verified n (build_validator p c.core) consumer c.core.world in
      (
        to_ffi name r,
        record c {
          core = record c.core { world = w };
          consumer = some (demux_consumer (f.strategy_of consumer));
        },
      ))

  unfoldable pub store_progress : List (ℕ × ℕ) → NdnClient → NdnClient
  store_progress [] c = c
  store_progress ((received, total) ∷ reports) c =
      store_progress reports (record c { fetch_received = received; fetch_total = total })

  unfoldable pub reset_progress : NdnClient → NdnClient
  reset_progress c = record c { fetch_received = 0; fetch_total = 0 }

  -- With a fresh consumer of the chosen strategy, and the shared one left as such.
  unfoldable pub hinted :
      {A : Type 0}
      → Text
      → Text
      → (Name → Name → p.Validator → Consumer → World → ((AppError ⊎ A) × List (ℕ × ℕ)) × World)
      → Call A
  hinted name hint run = parsed name (λ n. parsed hint (λ h c.
      let ((r, reports), w) =
        run n h (build_validator p c.core) (demux_consumer c.cc_strategy) c.core.world in
      let c = store_progress reports (reset_progress c) in
      (
        to_ffi name r,
        record c {
          core = record c.core { world = w };
          consumer = some (demux_consumer c.cc_strategy);
        },
      )))

  unfoldable pub fetch_object_verified_hinted : Text → Text → Call (List ℕ)
  fetch_object_verified_hinted name hint = hinted name hint (λ n h v. f.fetch_hinted n v h)

  unfoldable pub fetch_object_to_fd : Text → Text → ℕ → Call ℕ
  fetch_object_to_fd name hint fd = hinted name hint (λ n h v. f.fetch_to_file n v h fd)

  unfoldable pub fetch_progress_received : NdnClient → ℕ
  fetch_progress_received c = c.fetch_received

  unfoldable pub fetch_progress_total : NdnClient → ℕ
  fetch_progress_total c = c.fetch_total
