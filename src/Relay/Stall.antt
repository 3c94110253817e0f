-- ===== src/Relay/Stall.antt =====
-- What one Interest for a segment near the end of the 64-bit numbers does to the relay of
-- object_relay.rs: the sum of its pacing test wraps.
use ndn_mobile.Prelude.{ℕ, ◌+◌, ◌≤◌, ◌<◌, ◌≡◌, inl, inr, refl, arith, true, false}
use ndn_mobile.Prelude.{Option, none, some, List, [], ◌∷◌, Bool-cases, Option-cases}
use ndn_mobile.Relay.{
  Library, Relay, pacing, u64_mod, must_wait, handle_segment, handle, dispatch, pace,
}
use ndn_mobile.Relay.{
  LoopEvent, notified, cancelled, Event, interest, loop, refetched, step, run, relay_step,
  backward_refetch,
}

module _ (lib : Library) (public_versioned : lib.Name) (last_seg lookahead : ℕ) where
  open lib use {Name, last_segment}

  abbrev IsWord : Option ℕ → Type 0
  IsWord none = Unit
  IsWord (some seg) = seg < u64_mod

  -- A segment number is a 64-bit number, and the relay is not cancelled.
  abbrev GoesOn : Event lib → Type 0
  GoesOn (interest name) = IsWord (last_segment name)
  GoesOn (loop cancelled) = ⊥
  GoesOn _ = Unit

  abbrev pub AllGoOn : List (Event lib) → Type 0
  AllGoOn [] = Unit
  AllGoOn (e ∷ es) = GoesOn e × AllGoOn es

  -- A relay that waits, with the demand front so high that the limit has wrapped.
  pub record IsStuck (r : Relay lib) (produced : ℕ) : Type 0 where
    pub waits : r.phase ≡ pacing
    pub front_word : r.front < u64_mod
    pub wrapped : u64_mod ≤ r.front + lookahead
    pub at : r.produced ≡ produced
    pub running : r.started ≡ true

  module _ (produced : ℕ) (fits : lookahead ≤ u64_mod) (past : lookahead ≤ produced)
      (early : produced ≤ last_seg) where
    must_wait_lem :
        (r : Relay lib)
        → IsStuck r produced
        → must_wait lib public_versioned last_seg lookahead r ≡ true
    must_wait_lem r s = ground arith

    interest-IsStuck :
        (r : Relay lib) (o : Option ℕ)
        → IsWord o
        → IsStuck r produced
        → IsStuck (handle_segment lib o r).0 produced
    unfolding handle_segment
    interest-IsStuck r none w s = s
    interest-IsStuck r (some seg) w s = ground arith

    dispatch-IsStuck :
        (e : LoopEvent lib) (r : Relay lib)
        → GoesOn (loop e)
        → IsStuck r produced
        → IsStuck (dispatch lib public_versioned last_seg lookahead pacing e r) produced
    unfolding dispatch
    dispatch-IsStuck notified r g s =
        let w =
          must_wait_lem (record r { woken = false })
            (record {
              waits = s.waits;
              front_word = s.front_word;
              wrapped = s.wrapped;
              at = s.at;
              running = s.running;
            }) in
        elim (Bool-cases r.woken) [
          | inl woken ↦ simp woken (unfold pace in ground (arith, w))
          | inr woken ↦ simp woken s
        ]
    dispatch-IsStuck cancelled r g s = absurd g
    dispatch-IsStuck e r g s = s

    step-IsStuck :
        (r : Relay lib) (e : Event lib)
        → GoesOn e
        → IsStuck r produced
        → IsStuck (step lib public_versioned last_seg lookahead r e) produced
    unfolding step
    step-IsStuck r (interest name) g s = elim (Option-cases (lib.answer name)) [
      | inl n ↦ rw (n, step, handle) (interest-IsStuck r (last_segment name) g s)
      | inr (wire, n) ↦ rw (n, step, handle) s
    ]
    step-IsStuck r (loop e) g s =
        unfold relay_step in
        rw s.waits (
          dispatch-IsStuck e (record r { phase = pacing }) g
            (record {
              waits = refl;
              front_word = s.front_word;
              wrapped = s.wrapped;
              at = s.at;
              running = s.running;
            }))
    step-IsStuck r (refetched seg none) g s = unfold backward_refetch in s
    step-IsStuck r (refetched seg (some d)) g s = unfold backward_refetch in ground arith

    -- Once the demand front is within the lookahead of 2 ^ 64, as one Interest for such a segment
    -- makes it, a relay that waits at a segment of the object not below the lookahead waits for ever:
    -- whatever is asked for and whatever else happens short of cancellation, it produces nothing more.
    pub run-IsStuck :
        (es : List (Event lib)) (r : Relay lib)
        → AllGoOn es
        → IsStuck r produced
        → IsStuck (run lib public_versioned last_seg lookahead r es) produced
    unfolding run
    run-IsStuck [] r g s = s
    run-IsStuck (e ∷ es) r g s =
        run-IsStuck es (step lib public_versioned last_seg lookahead r e) g.1
          (step-IsStuck r e g.0 s)
