-- ===== src/Relay/Pacing.antt =====
-- How far the relay of object_relay.rs runs ahead of what the consumer asked for.
use ndn_mobile.Prelude.{ℕ, ◌+◌, ◌≤◌, ◌<◌, ◌≡◌, ◌⊎◌, inl, inr, refl, arith, true, false}
use ndn_mobile.Prelude.{Bool-cases, Option-cases, Option, none, some, List, [], ◌∷◌}
use ndn_mobile.Relay.{Library, Relay, Data, Phase, subscribing, pacing, receiving, u64_mod, start}
use ndn_mobile.Relay.{
  LoopEvent, subscribed, notified, received, Event, interest, loop, refetched, step, run,
  relay_step, handle, backward_refetch, handle_segment, relay_segment, pace, dispatch,
}

module _ (lib : Library) (public_versioned : lib.Name) (last_seg lookahead : ℕ) where
  open lib use {Name, last_segment}

  -- A demanded segment number that leaves room for the lookahead.
  abbrev IsModest : Option ℕ → Type 0
  IsModest none = Unit
  IsModest (some seg) = seg + lookahead < u64_mod

  -- A segment of the object that the leaf sends in order: none is left out.
  abbrev IsNext : ℕ → Option ℕ → Type 0
  IsNext produced none = Unit
  IsNext produced (some seg) = (seg ≤ produced) × (seg ≤ last_seg)

  abbrev IsFair : Relay lib → Event lib → Type 0
  IsFair r (interest name) = IsModest (last_segment name)
  IsFair r (loop (received d)) = IsNext r.produced (last_segment d.name)
  IsFair r _ = Unit

  -- Every Interest is modest and the leaf streams in order, over a whole run.
  abbrev pub AreFair : Relay lib → List (Event lib) → Type 0
  AreFair r [] = Unit
  AreFair r (e ∷ es) = IsFair r e × AreFair (step lib public_versioned last_seg lookahead r e) es

  pub record Leads (r : Relay lib) : Type 0 where
    pub modest : r.front + lookahead < u64_mod
    pub lead : r.produced ≤ r.front + lookahead + 1
    pub reading : r.phase ≡ receiving → (r.produced ≤ r.front + lookahead) ⊎ (last_seg < r.produced)

  interest-Leads :
      (r : Relay lib) (o : Option ℕ) → IsModest o → Leads r → Leads (handle_segment lib o r).0
  unfolding handle_segment
  interest-Leads r none f l = l
  interest-Leads r (some seg) f l = ground arith

  -- Taking a Data over moves the produced front by one at most, and the demand front not at all.
  relay_segment_front :
      (o : Option ℕ) (d : Data lib) (r : Relay lib)
      → last_seg + 1 < u64_mod
      → IsNext r.produced o
      → let r' = relay_segment lib public_versioned last_seg lookahead o d r in
        (r'.front ≡ r.front)
        × ((r'.produced ≡ r.produced) ⊎ (r'.produced ≡ r.produced + 1) × (r.produced ≤ last_seg))
  unfolding relay_segment
  relay_segment_front none d r small f = (refl, inl refl)
  relay_segment_front (some seg) d r small f = ground arith

  pace-Leads :
      (r : Relay lib)
      → r.front + lookahead < u64_mod
      → r.produced ≤ r.front + lookahead + 1
      → Leads (pace lib public_versioned last_seg lookahead r)
  unfolding pace
  pace-Leads r m l = ground arith

  dispatch-Leads :
      (phase : Phase) (e : LoopEvent lib) (r : Relay lib)
      → r.phase ≡ phase
      → last_seg + 1 < u64_mod
      → IsFair r (loop e)
      → Leads r
      → Leads (dispatch lib public_versioned last_seg lookahead phase e r)
  unfolding dispatch
  dispatch-Leads receiving (received d) r at small f l =
      let front = relay_segment_front (last_segment d.name) d r small f in
      let r' = relay_segment lib public_versioned last_seg lookahead (last_segment d.name) d r in
      pace-Leads r' (ground (arith, front)) (ground (arith, front))
  dispatch-Leads subscribing (subscribed true) r at small f l = pace-Leads r l.modest l.lead
  dispatch-Leads pacing notified r at small f l = elim (Bool-cases r.woken) [
    | inl w ↦ simp w (pace-Leads (record r { woken = false }) l.modest l.lead)
    | inr w ↦ simp w l
  ]
  dispatch-Leads phase e r at small f l = ground arith

  step-Leads :
      (r : Relay lib) (e : Event lib)
      → last_seg + 1 < u64_mod
      → IsFair r e
      → Leads r
      → Leads (step lib public_versioned last_seg lookahead r e)
  unfolding step
  step-Leads r (interest name) small f l = elim (Option-cases (lib.answer name)) [
    | inl n ↦ rw (n, step, handle) (interest-Leads r (last_segment name) f l)
    | inr (wire, n) ↦ rw (n, step, handle) l
  ]
  step-Leads r (loop e) small f l = unfold relay_step in dispatch-Leads r.phase e r refl small f l
  step-Leads r (refetched seg none) small f l = unfold backward_refetch in l
  step-Leads r (refetched seg (some d)) small f l = unfold backward_refetch in ground arith

  run-Leads :
      (es : List (Event lib)) (r : Relay lib)
      → last_seg + 1 < u64_mod
      → AreFair r es
      → Leads r
      → Leads (run lib public_versioned last_seg lookahead r es)
  unfolding run
  run-Leads [] r small f l = l
  run-Leads (e ∷ es) r small f l =
      run-Leads es (step lib public_versioned last_seg lookahead r e) small f.1
        (step-Leads r e small f.0 l)

  -- Whatever the interleaving of Interests, re-fetches and turns of the loop, the relay has never
  -- produced a segment beyond the consumer's demand front by more than the lookahead, so long as no
  -- Interest asks for a segment within the lookahead of the last 64-bit number and the leaf streams
  -- the segments of the object in order.
  pub run_lead :
      (es : List (Event lib))
      → lookahead < u64_mod
      → last_seg + 1 < u64_mod
      → AreFair (start lib) es
      → let r = run lib public_versioned last_seg lookahead (start lib) es in
        r.produced ≤ r.front + lookahead + 1
  run_lead es word small f =
      (run-Leads es (start lib) small f
        (record { modest = omega arith; lead = omega arith; reading = λ e. cc })).lead
