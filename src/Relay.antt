-- ===== src/Relay.antt =====
-- crates/ndn-mobile/src/object_relay.rs: the producer of record of one object. The serve handler and
-- the relay loop share the state below; each function is one atomic turn of theirs, and an outcome of
-- code outside the repository comes in as an argument.
pub mod Pacing
pub mod Stall
pub mod Refetch
use package.ndn_mobile.Prelude.{ℕ, ◌+◌, ◌%◌, ◌^◌, max, Bool, true, false, ◌&&◌, Option, none, some}
use package.ndn_mobile.Prelude.{List, [], ◌∷◌, ltb, leb, if◌then◌else◌}

abbrev pub u64_mod : ℕ
u64_mod = 2 ^ 64

abbrev pub default_lookahead : ℕ
default_lookahead = 512

-- What the relay uses of the packet, object and signing libraries.
pub record Library : Type 1 where
  pub Name : Type 0
  pub Content : Type 0
  pub Wire : Type 0
  -- `components().last().and_then(as_segment)`.
  pub last_segment : Name → Option ℕ
  -- All components but the last, if there are any.
  pub parent : Name → Option Name
  pub append_segment : Name → ℕ → Name
  -- `Bytes::default()`.
  pub no_content : Content
  -- `PreparedObject::answer_interest` of the metadata object: `Ok(Some(wire))`, or anything else.
  pub answer : Name → Option Wire
  -- `DataBuilder::new(name, content).freshness(..).sign_with(signer)`.
  pub sign : Name → Content → Option Wire

-- Where the relay loop waits; `idle` is before it is spawned.
pub data Phase : Type 0 where
  idle subscribing retrying pacing receiving ended : Phase

module _ (lib : Library) where
  open lib use {Name, Content, Wire}

  -- A Data from the leaf.
  pub record Data : Type 0 where
    pub name : Name
    pub content : Option Content

  pub record Relay : Type 0 where
    -- `Demand`: the highest segment asked for, and a stored wake-up.
    pub front : ℕ
    pub woken : Bool
    -- `RelayInputs` have been taken.
    pub started : Bool
    pub phase : Phase
    pub produced : ℕ
    pub source_versioned : Option Name
    -- What was inserted into the content store, newest first, and what the relay published.
    pub cs : List (Name × Wire)
    pub out : List Wire

  -- What the serve handler does with one Interest.
  pub data Served : Type 0 where
    respond : Wire → Served
    silent : Served
    spawn_refetch : Name → ℕ → Served

  abbrev pub start : Relay
  start = record {
    front = 0;
    woken = false;
    started = false;
    phase = idle;
    produced = 0;
    source_versioned = none;
    cs = [];
    out = [];
  }

  -- `inputs.lock().take()`, and the spawned loop.
  begin : Relay → Relay
  begin r = if r.started then r else record r { started = true; phase = subscribing }

  refetch_of : ℕ → ℕ → Option Name → Served
  refetch_of seg produced none = silent
  refetch_of seg produced (some source) =
      if ltb seg produced then spawn_refetch source seg else silent

  handle_segment : Option ℕ → Relay → Relay × Served
  unfolding begin refetch_of
  handle_segment none r = (r, silent)
  handle_segment (some seg) r =
      let r' = begin (record r { front = max r.front seg; woken = true }) in
      (r', refetch_of seg r'.produced r'.source_versioned)

  -- The handler that `spawn_object_relay` serves.
  unfoldable pub handle : Relay → Name → Relay × Served
  unfolding handle_segment
  handle r name = elim (lib.answer name) [
    | some wire ↦ (r, respond wire)
    | none ↦ handle_segment (lib.last_segment name) r
  ]

  -- `data.content().cloned().unwrap_or_default()`.
  abbrev content_of : Data → Content
  content_of d = elim d.content [ some c ↦ c | none ↦ lib.no_content ]

  store_signed : Relay → Name → Option Wire → Relay × Option Wire
  store_signed r name none = (r, none)
  store_signed r name (some wire) = (record r { cs = (name, wire) ∷ r.cs }, some wire)

  -- What the loop meets: the outcome of `subscribe`, the end of a pause, a wake-up, a Data or an
  -- error of `recv`, cancellation.
  pub data LoopEvent : Type 0 where
    subscribed : Bool → LoopEvent
    slept : LoopEvent
    notified : LoopEvent
    received : Data → LoopEvent
    failed : LoopEvent
    cancelled : LoopEvent

  -- A run interleaves Interests, turns of the loop and re-fetches that were spawned.
  pub data Event : Type 0 where
    interest : Name → Event
    loop : LoopEvent → Event
    refetched : ℕ → Option Data → Event

  module _ (public_versioned : Name) (last_seg lookahead : ℕ) where
    -- `backward_refetch`, with the outcome of the fetch: the wire it responds with, if any.
    unfoldable pub backward_refetch : Relay → ℕ → Option Data → Relay × Option Wire
    unfolding store_signed
    backward_refetch r seg none = (r, none)
    backward_refetch r seg (some data_of_leaf) =
        let name = lib.append_segment public_versioned seg in
        store_signed r name (lib.sign name (content_of data_of_leaf))

    -- The `while` test: the sum is a `u64`, which wraps in a release build.
    abbrev pub must_wait : Relay → Bool
    must_wait r = ltb ((r.front + lookahead) % u64_mod) r.produced && leb r.produced last_seg

    -- The head of the inner loop.
    pace : Relay → Relay
    pace r = record r { phase = if must_wait r then pacing else receiving }

    learn : Option Name → Name → Relay → Relay
    learn (some known) name r = r
    learn none name r = record r { source_versioned = lib.parent name }

    publish : Name → ℕ → Option Wire → Relay → Relay
    publish name seg none r = r
    publish name seg (some wire) r = record r {
      cs = (name, wire) ∷ r.cs;
      out = wire ∷ r.out;
      produced = max r.produced ((seg + 1) % u64_mod);
    }

    relay_segment : Option ℕ → Data → Relay → Relay
    unfolding learn publish
    relay_segment none d r = r
    relay_segment (some seg) d r =
        let name = lib.append_segment public_versioned seg in
        publish name seg (lib.sign name (content_of d)) (learn r.source_versioned d.name r)

    dispatch : Phase → LoopEvent → Relay → Relay
    unfolding pace relay_segment
    dispatch idle e r = r
    dispatch ended e r = r
    dispatch phase cancelled r = record r { phase = ended }
    dispatch subscribing (subscribed true) r = pace r
    dispatch subscribing (subscribed false) r = record r { phase = retrying }
    dispatch retrying slept r = record r { phase = subscribing }
    dispatch pacing notified r = if r.woken then pace (record r { woken = false }) else r
    dispatch receiving (received d) r = pace (relay_segment (lib.last_segment d.name) d r)
    dispatch receiving failed r = record r { phase = subscribing }
    dispatch phase e r = r

    -- A turn of `run_relay`.
    unfoldable pub relay_step : Relay → LoopEvent → Relay
    unfolding dispatch
    relay_step r e = dispatch r.phase e r

    unfoldable pub step : Relay → Event → Relay
    unfolding handle relay_step backward_refetch
    step r (interest name) = (handle r name).0
    step r (loop e) = relay_step r e
    step r (refetched seg d) = (backward_refetch r seg d).0

    unfoldable pub run : Relay → List Event → Relay
    run r [] = r
    run r (e ∷ es) = run (step r e) es
