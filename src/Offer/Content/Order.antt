-- ===== src/Offer/Content/Order.antt =====
-- What the content stream sends.
use ndn_mobile.Prelude.{
  ℕ, zero, suc, ◌≡◌, ◌≢◌, ◌≤◌, ◌+◌, ◌-◌, refl, sym, ap, ◌∙◌, arith, Bool-cases, Option-cases, Bool,
  true, false, leb, leb→le, Option, none, some, List, [], ◌∷◌, ◌++◌, inl, inr, map, map-append, max,
  subst,
}
use ndn_mobile.Offer.{Library}
use ndn_mobile.Offer.Content.{
  Stream, start, subscription, plain, handle, publish, segment, acquire, turn, Event, interest,
  round, step, run, rounds,
}

le→leb : (a b : ℕ) → a ≤ b → leb a b ≡ true
le→leb a b h = ground arith

module _ (lib : Library) where
  open lib use {Wire, Prepared, last_seg}

  -- What the object has for its first segments.
  abbrev pub segments : Prepared → ℕ → List (Option Wire)
  segments p zero = []
  segments p (suc n) = segments p n ++ segment lib p n ∷ []

  -- The permits that the subscriptions grant, one at least for each.
  abbrev pub granted : ℕ → List (Event lib) → ℕ
  granted n [] = n
  granted n (interest (subscription c) ∷ es) = granted (n + max c 1) es
  granted n (e ∷ es) = granted n es

  pub record IsInOrder (p : Prepared) (n : ℕ) (s : Stream lib) : Type 0 where
    pub same_object : s.prepared ≡ p
    pub in_order : map some s.sent ≡ segments p s.seg
    pub within_budget : s.seg + s.budget ≤ n
    pub within_object : s.seg ≤ suc (last_seg p)

  publish-IsInOrder :
      (p : Prepared) (n rest : ℕ) (send : Bool) (o : Option Wire) (s : Stream lib)
      → segment lib p s.seg ≡ o
      → suc rest ≡ s.budget
      → s.seg ≤ last_seg p
      → IsInOrder p n s
      → IsInOrder p n (publish lib send o (record s { budget = rest }))
  unfolding publish
  publish-IsInOrder p n rest send none s e b l i = record {
    same_object = i.same_object;
    in_order = i.in_order;
    within_budget = omega (arith, i.within_budget);
    within_object = i.within_object;
  }
  publish-IsInOrder p n rest false (some wire) s e b l i = record {
    same_object = i.same_object;
    in_order = i.in_order;
    within_budget = omega (arith, i.within_budget);
    within_object = i.within_object;
  }
  publish-IsInOrder p n rest true (some wire) s e b l i = record {
    same_object = i.same_object;
    in_order = map-append some s.sent (wire ∷ []) ∙ rw (i.in_order, sym e) refl;
    within_budget = omega (arith, i.within_budget);
    within_object = omega arith;
  }

  acquire-IsInOrder :
      (p : Prepared) (n b : ℕ) (send : Bool) (s : Stream lib)
      → b ≡ s.budget
      → s.seg ≤ last_seg p
      → IsInOrder p n s
      → IsInOrder p n (acquire lib send b s)
  unfolding acquire
  acquire-IsInOrder p n zero send s b l i = i
  acquire-IsInOrder p n (suc rest) send s b l i =
      publish-IsInOrder p n rest send (segment lib s.prepared s.seg) s
        (ap (λ q. segment lib q s.seg) (sym i.same_object)) b l i

  turn-IsInOrder :
      (p : Prepared) (n : ℕ) (send : Bool) (s : Stream lib)
      → IsInOrder p n s
      → IsInOrder p n (turn lib send s)
  unfolding turn
  turn-IsInOrder p n send s i = elim (Bool-cases s.stopped) [
    | inl h ↦ simp h i
    | inr h ↦ elim (Bool-cases (leb s.seg (last_seg s.prepared))) [
      | inl l ↦
          simp (h, l)
            (acquire-IsInOrder p n s.budget send s refl
              (leb→le s.seg (last_seg p)
                (subst (λ q. leb s.seg (last_seg q) ≡ true) i.same_object l))
              i)
      | inr l ↦ simp (h, l) i
    ]
  ]

  run_extends :
      (p : Prepared) (n : ℕ) (es : List (Event lib)) (s : Stream lib)
      → IsInOrder p n s
      → IsInOrder p (granted n es) (run lib es s)
  unfolding step handle
  run_extends p n [] s i = i
  run_extends p n (interest (subscription c) ∷ es) s i =
      run_extends p (n + max c 1) es (record s { budget = s.budget + max c 1 })
        (record {
          same_object = i.same_object;
          in_order = i.in_order;
          within_budget = omega (arith, i.within_budget);
          within_object = i.within_object;
        })
  run_extends p n (interest (plain name) ∷ es) s i = run_extends p n es s i
  run_extends p n (round send ∷ es) s i =
      run_extends p n es (turn lib send s) (turn-IsInOrder p n send s i)

  -- After any Interests and rounds of the streamer, with any sends that fail, what a content stream
  -- has sent is its object's first segments in order, each once, with none past the last, and no more
  -- than the subscriptions have granted.
  pub run-IsInOrder :
      (p : Prepared) (es : List (Event lib)) → IsInOrder p (granted 0 es) (run lib es (start lib p))
  unfolding start
  run-IsInOrder p es = run_extends p 0 es (start lib p) (record {
    same_object = refl;
    in_order = refl;
    within_budget = omega arith;
    within_object = omega arith;
  })

  turn_publishes :
      (s : Stream lib) (rest : ℕ) (wire : Wire)
      → s.stopped ≡ false
      → leb s.seg (last_seg s.prepared) ≡ true
      → s.budget ≡ suc rest
      → segment lib s.prepared s.seg ≡ some wire
      → turn lib true s ≡ record s { budget = rest; seg = suc s.seg; sent = s.sent ++ wire ∷ [] }
  unfolding turn acquire publish
  turn_publishes s rest wire h l b e = simp (h, l, b, e)

  rounds-IsInOrder :
      (p : Prepared) (k n : ℕ) (s : Stream lib) → IsInOrder p k s → IsInOrder p k (rounds lib n s)
  rounds-IsInOrder p k zero s i = i
  rounds-IsInOrder p k (suc n) s i =
      rounds-IsInOrder p k n (turn lib true s) (turn-IsInOrder p k true s i)

  rounds_send :
      (p : Prepared) (n : ℕ) (s : Stream lib)
      → s.prepared ≡ p
      → ((i : ℕ) → i ≤ last_seg p → segment lib p i ≢ none)
      → s.stopped ≡ false
      → n ≤ s.budget
      → s.seg + n ≤ suc (last_seg p)
      → (rounds lib n s).seg ≡ s.seg + n
  rounds_send p zero s q a h b l = omega arith
  rounds_send p (suc n) s q a h b l = elim (Option-cases (segment lib s.prepared s.seg)) [
    | inl z ↦ absurd (a s.seg (omega arith) (subst (λ t. segment lib t s.seg ≡ none) q z))
    | inr (wire, e) ↦
        let turned =
          turn_publishes s (s.budget - 1) wire h
            (subst (λ t. leb s.seg (last_seg t) ≡ true) (sym q)
              (le→leb s.seg (last_seg p) (omega arith)))
            (omega arith) e in
        rw (turned, rounds)
          (rounds_send p n
              (record s { budget = s.budget - 1; seg = suc s.seg; sent = s.sent ++ wire ∷ [] }) q a
              h (omega arith) (omega arith)
            ∙ omega arith)
  ]

  -- Where the object answers for all its segments and the connection takes what is sent, a stream
  -- that one subscription has granted at least as many permits sends after so many rounds exactly
  -- the first so many segments; a subscription for none grants one.
  pub rounds_send_granted :
      (p : Prepared) (max_data_count n : ℕ)
      → ((i : ℕ) → i ≤ last_seg p → segment lib p i ≢ none)
      → n ≤ max max_data_count 1
      → n ≤ suc (last_seg p)
      → map some (rounds lib n (handle lib (subscription max_data_count) (start lib p)).0).sent
        ≡ segments p n
  unfolding handle start
  rounds_send_granted p max_data_count n a b l =
      let s = record (start lib p) { budget = 0 + max max_data_count 1 } in
      let i = rounds-IsInOrder p (max max_data_count 1) n s (record {
        same_object = refl;
        in_order = refl;
        within_budget = omega arith;
        within_object = omega arith;
      }) in
      i.in_order
      ∙ ap (segments p) {y = n}
          (rounds_send p n s refl a refl (omega arith) (omega arith) ∙ omega arith)
