-- ===== src/Relay/Refetch.antt =====
-- What the relay of object_relay.rs stores, and which Interests it pulls a segment back for.
use ndn_mobile.Prelude.{ℕ, ◌<◌, ◌≡◌, ◌≢◌, ◌⊎◌, ◌∙◌, All, inl, inr, refl, arith, true, false}
use ndn_mobile.Prelude.{Option, none, some, List, [], ◌∷◌, Bool-cases, Option-cases}
use ndn_mobile.Relay.{
  Library, Relay, Data, Phase, start, content_of, handle_segment, handle, dispatch, pace,
  relay_segment, learn, publish, store_signed,
}
use ndn_mobile.Relay.{
  LoopEvent, subscribed, slept, notified, received, Event, interest, loop, refetched, step, run,
  relay_step, backward_refetch,
}
use ndn_mobile.Relay.{spawn_refetch, refetch_of, subscribing, retrying, pacing, receiving}

module _ (lib : Library) where
  -- What the leaf has in a Data: nothing where the Data has no content.
  abbrev pub Holds : Data lib → lib.Content → Type 0
  Holds d content = (d.content ≡ some content) ⊎ ((d.content ≡ none) × (content ≡ lib.no_content))

  abbrev pub Among : Event lib → List (Event lib) → Type 0
  Among e [] = ⊥
  Among e (x ∷ es) = (x ≡ e) ⊎ Among e es

  -- A Data of the leaf's for a segment, which came in the stream under the segment's name, or for a
  -- re-fetch of the segment.
  abbrev pub CameIn : List (Event lib) → ℕ → Data lib → Type 0
  CameIn es seg d =
      (Among (loop (received d)) es × (lib.last_segment d.name ≡ some seg))
      ⊎ Among (refetched seg (some d)) es

module _ (lib : Library) (public_versioned : lib.Name) (last_seg lookahead : ℕ)
    (Came : ℕ → Data lib → Type 0) where
  open lib use {Name, Wire, last_segment}

  -- The node's signature, under the public name of a segment, over what a Data for it holds.
  abbrev pub IsOurs : Name × Wire → Type 0
  IsOurs (name, wire) =
      (seg : ℕ) × (d : Data lib) × (content : lib.Content) × Came seg d
      × Holds lib d content
      × (name ≡ lib.append_segment public_versioned seg)
      × (lib.sign name content ≡ some wire)

  abbrev pub AllOurs : List (Name × Wire) → Type 0
  AllOurs [] = Unit
  AllOurs (entry ∷ cs) = IsOurs entry × AllOurs cs

  -- The Data of an event are for the segments that they are taken for.
  abbrev Within : Event lib → Type 0
  Within (loop (received d)) = (seg : ℕ) → last_segment d.name ≡ some seg → Came seg d
  Within (refetched seg (some d)) = Came seg d
  Within _ = Unit

  content_of-Holds :
      (d : Data lib) (o : Option lib.Content) → d.content ≡ o → Holds lib d (content_of lib d)
  content_of-Holds d none q = inr (q, rw q)
  content_of-Holds d (some c) q = inl (q ∙ rw q)

  pub record IsSound (r : Relay lib) : Type 0 where
    pub signed : AllOurs r.cs
    -- The leaf's prefix is known once anything has been produced.
    pub known : 0 < r.produced → r.source_versioned ≢ none

  store_signed-AllOurs :
      (r : Relay lib) (seg : ℕ) (d : Data lib) (content : lib.Content) (o : Option Wire)
      → Came seg d
      → Holds lib d content
      → let name = lib.append_segment public_versioned seg in
        lib.sign name content ≡ o → IsSound r → IsSound (store_signed lib r name o).0
  unfolding store_signed
  store_signed-AllOurs r seg d content none c g e s = s
  store_signed-AllOurs r seg d content (some wire) c g e s = record {
    signed = ((seg, d, content, c, g, refl, e), s.signed);
    known = s.known;
  }

  interest-IsSound : (r : Relay lib) (o : Option ℕ) → IsSound r → IsSound (handle_segment lib o r).0
  unfolding handle_segment
  interest-IsSound r none s = s
  interest-IsSound r (some seg) s = elim (Bool-cases r.started) [
    | inl e ↦ simp e (record { signed = s.signed; known = s.known })
    | inr e ↦ simp e (record { signed = s.signed; known = s.known })
  ]

  publish-IsSound :
      (r : Relay lib) (seg : ℕ) (d : Data lib) (content : lib.Content) (o : Option Wire)
      → Came seg d
      → Holds lib d content
      → let name = lib.append_segment public_versioned seg in
        lib.sign name content ≡ o
        → AllOurs r.cs
        → r.source_versioned ≢ none
        → IsSound (publish lib public_versioned last_seg lookahead name seg o r)
  unfolding publish
  publish-IsSound r seg d content none c g e s k = record { signed = s; known = λ _. k }
  publish-IsSound r seg d content (some wire) c g e s k = record {
    signed = ((seg, d, content, c, g, refl, e), s);
    known = λ _. k;
  }

  module _
      (has_parent : (name : Name) (seg : ℕ)
        → last_segment name ≡ some seg
        → lib.parent name ≢ none) where
    learned :
        (o : Option Name) (r : Relay lib) (name : Name) (seg : ℕ)
        → last_segment name ≡ some seg
        → r.source_versioned ≡ o
        → (learn lib public_versioned last_seg lookahead o name r).source_versioned ≢ none
    unfolding learn
    learned none r name seg e at = has_parent name seg e
    learned (some known) r name seg e at = ground arith

    learn-cs :
        (o : Option Name) (r : Relay lib) (name : Name)
        → (learn lib public_versioned last_seg lookahead o name r).cs ≡ r.cs
    unfolding learn
    learn-cs none r name = refl
    learn-cs (some known) r name = refl

    relay_segment-IsSound :
        (o : Option ℕ) (d : Data lib) (r : Relay lib)
        → last_segment d.name ≡ o
        → Within (loop (received d))
        → IsSound r
        → IsSound (relay_segment lib public_versioned last_seg lookahead o d r)
    unfolding relay_segment
    relay_segment-IsSound none d r e c s = s
    relay_segment-IsSound (some seg) d r e c s =
        let r' = learn lib public_versioned last_seg lookahead r.source_versioned d.name r in
        publish-IsSound r' seg d (content_of lib d)
          (lib.sign (lib.append_segment public_versioned seg) (content_of lib d)) (c seg e)
          (content_of-Holds d d.content refl) refl
          (rw (learn-cs r.source_versioned r d.name) s.signed)
          (learned r.source_versioned r d.name seg e refl)

    pace-IsSound :
        (r : Relay lib) → IsSound r → IsSound (pace lib public_versioned last_seg lookahead r)
    unfolding pace
    pace-IsSound r s = record { signed = s.signed; known = s.known }

    dispatch-IsSound :
        (phase : Phase) (e : LoopEvent lib) (r : Relay lib)
        → Within (loop e)
        → IsSound r
        → IsSound (dispatch lib public_versioned last_seg lookahead phase e r)
    unfolding dispatch
    dispatch-IsSound receiving (received d) r c s =
        pace-IsSound
          (relay_segment lib public_versioned last_seg lookahead (last_segment d.name) d r)
          (relay_segment-IsSound (last_segment d.name) d r refl c s)
    dispatch-IsSound subscribing (subscribed true) r c s = pace-IsSound r s
    dispatch-IsSound pacing notified r c s = elim (Bool-cases r.woken) [
      | inl w ↦ simp w (
          pace-IsSound (record r { woken = false }) (record { signed = s.signed; known = s.known }))
      | inr w ↦ simp w s
    ]
    dispatch-IsSound retrying slept r c s = record { signed = s.signed; known = s.known }
    dispatch-IsSound phase e r c s = record { signed = s.signed; known = s.known }

    step-IsSound :
        (r : Relay lib) (e : Event lib)
        → Within e
        → IsSound r
        → IsSound (step lib public_versioned last_seg lookahead r e)
    unfolding step
    step-IsSound r (interest name) c s = elim (Option-cases (lib.answer name)) [
      | inl n ↦ rw (n, step, handle) (interest-IsSound r (last_segment name) s)
      | inr (wire, n) ↦ rw (n, step, handle) s
    ]
    step-IsSound r (loop e) c s = unfold relay_step in dispatch-IsSound r.phase e r c s
    step-IsSound r (refetched seg none) c s = unfold backward_refetch in s
    step-IsSound r (refetched seg (some d)) c s =
        unfold backward_refetch in
        store_signed-AllOurs r seg d (content_of lib d)
          (lib.sign (lib.append_segment public_versioned seg) (content_of lib d)) c
          (content_of-Holds d d.content refl) refl s

    run-IsSound :
        (es : List (Event lib)) (r : Relay lib)
        → All Within es
        → IsSound r
        → IsSound (run lib public_versioned last_seg lookahead r es)
    unfolding run
    run-IsSound [] r c s = s
    run-IsSound (e ∷ es) r (c, cs) s =
        run-IsSound es (step lib public_versioned last_seg lookahead r e) cs (step-IsSound r e c s)

  start-IsSound : IsSound (start lib)
  start-IsSound = record { signed = tt; known = λ h. absurd (omega arith) }

module _ (lib : Library) (public_versioned : lib.Name) (last_seg lookahead : ℕ) where
  open lib use {Name, last_segment}

  each-Within :
      (es : List (Event lib)) (e : Event lib)
      → Among lib e es
      → Within lib public_versioned last_seg lookahead (CameIn lib es) e
  each-Within es (loop (received d)) m = λ seg q. inl (m, q)
  each-Within es (refetched seg (some d)) m = inr m
  each-Within es e m = tt

  all-Within :
      (es xs : List (Event lib))
      → ((e : Event lib) → Among lib e xs → Among lib e es)
      → All (Within lib public_versioned last_seg lookahead (CameIn lib es)) xs
  all-Within es [] f = tt
  all-Within es (x ∷ xs) f =
      (each-Within es x (f x (inl refl)), all-Within es xs (λ e m. f e (inr m)))

  module _
      (has_parent : (name : Name) (seg : ℕ)
        → last_segment name ≡ some seg
        → lib.parent name ≢ none) where
    -- After any run, everything that the relay put into the content store is the public object's
    -- segment of some number, signed by the node under its own name, over the content of a Data of the
    -- leaf's for the segment of this number: one that the stream had under that segment, or that came
    -- for a re-fetch of it.
    pub run_signed :
        (es : List (Event lib))
        → AllOurs lib public_versioned last_seg lookahead
            (CameIn lib es)
            (run lib public_versioned last_seg lookahead (start lib) es).cs
    run_signed es =
        let s =
          run-IsSound lib public_versioned last_seg lookahead (CameIn lib es) has_parent es
            (start lib) (all-Within es es (λ e m. m))
            (start-IsSound lib public_versioned last_seg lookahead (CameIn lib es)) in
        s.signed

    spawns :
        (o : Option Name) (seg produced : ℕ)
        → seg < produced
        → o ≢ none
        → (source : Name) × (refetch_of lib seg produced o ≡ spawn_refetch source seg)
    unfolding refetch_of
    spawns none seg produced h k = absurd (k refl)
    spawns (some source) seg produced h k = (source, ground arith)

    -- After any run, an Interest for a segment that the relay has passed, and that the metadata does
    -- not answer, is never dropped: its segment is pulled back from the leaf.
    pub run_refetches :
        (es : List (Event lib)) (name : Name) (seg : ℕ)
        → let r = run lib public_versioned last_seg lookahead (start lib) es in
          lib.answer name ≡ none
          → last_segment name ≡ some seg
          → seg < r.produced
          → (source : Name) × ((handle lib r name).1 ≡ spawn_refetch source seg)
    unfolding handle_segment handle
    run_refetches es name seg no_answer is_seg passed =
        let r = run lib public_versioned last_seg lookahead (start lib) es in
        let s =
          run-IsSound lib public_versioned last_seg lookahead (CameIn lib es) has_parent es
            (start lib) (all-Within es es (λ e m. m))
            (start-IsSound lib public_versioned last_seg lookahead (CameIn lib es)) in
        rw (no_answer, handle, is_seg)
          (elim (Bool-cases r.started) [
            | inl e ↦
                simp e (spawns r.source_versioned seg r.produced passed (s.known (omega arith)))
            | inr e ↦
                simp e (spawns r.source_versioned seg r.produced passed (s.known (omega arith)))
          ])
