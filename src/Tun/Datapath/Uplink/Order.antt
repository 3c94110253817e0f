-- ===== src/Tun/Datapath/Uplink/Order.antt =====
-- The uplink of tun.rs publishes every packet once, in order, under consecutive names.
use ndn_mobile.Prelude.{ℕ, zero, suc, ◌+◌, ◌%◌, ◌≡◌, refl, sym, ap, ◌∙◌, arith, Bool, true, false}
use ndn_mobile.Prelude.{
  Option, none, some, List, [], ◌∷◌, ◌++◌, map, append_assoc, append-nil, length,
}
use ndn_mobile.Tun.Datapath.Uplink.{
  Uplink, UplinkEvent, inject, interest, receive, publish, cancelled, start, send, step, run,
  seq_mod,
}
use ndn_mobile.Prelude.{add-zero, zero-add, Bool-cases, inl, inr}
use ndn_mobile.Tun.Datapath.Uplink.{stream, InjectResult}

-- The names of `n` Data, from sequence number `seq` on.
unfoldable pub names : {Name : Type 0} → (ℕ → Name) → ℕ → ℕ → List Name
names name zero seq = []
names name (suc n) seq = name (seq % seq_mod) ∷ names name n (seq + 1)

names-suc :
    {Name : Type 0} (name : ℕ → Name) (n seq : ℕ)
    → names name (suc n) seq ≡ names name n seq ++ (name ((seq + n) % seq_mod) ∷ [])
unfolding names
names-suc name zero seq = rw add-zero
names-suc name (suc n) seq =
    ap (λ r. name (seq % seq_mod) ∷ r)
      (names-suc name n (seq + 1)
        ∙ ap (λ k. names name n (seq + 1) ++ (name (k % seq_mod) ∷ [])) (omega arith))

abbrev of_option : {Packet : Type 0} → Option Packet → List Packet
of_option none = []
of_option (some ip) = ip ∷ []

-- The budget that Interests granted.
unfoldable pub granted : {Packet : Type 0} → List (UplinkEvent Packet) → ℕ
granted [] = 0
granted (interest none ∷ es) = 1 + granted es
granted (interest (some n) ∷ es) = n + granted es
granted (_ ∷ es) = granted es

granted-cons :
    {Packet : Type 0} (e : UplinkEvent Packet) (es : List (UplinkEvent Packet))
    → granted (e ∷ es) ≡ granted (e ∷ []) + granted es
unfolding granted
granted-cons (interest none) es = omega arith
granted-cons (interest (some n)) es = omega arith
granted-cons (inject ip) es = omega arith
granted-cons receive es = omega arith
granted-cons (publish ok) es = omega arith
granted-cons cancelled es = omega arith

module _ {Name : Type 0} {Packet : Type 0} where
  -- All packets that are somewhere in the uplink, oldest first.
  abbrev pub inside : Uplink Name Packet → List Packet
  inside u = map (λ d. d.1) u.published ++ (of_option u.held ++ u.queue)

module _ {Name : Type 0} {Packet : Type 0} (append_segment : Name → ℕ → Name)
    (self_prefix : Name) where
  taken : InjectResult → Packet → List Packet
  taken InjectResult.sent ip = ip ∷ []
  taken _ ip = []

  took : Uplink Name Packet → UplinkEvent Packet → List Packet
  unfolding taken
  took u (inject ip) = taken (send append_segment self_prefix u ip).1 ip
  took u _ = []

  -- The packets that `inject` accepted.
  unfoldable pub accepted : Uplink Name Packet → List (UplinkEvent Packet) → List Packet
  unfolding took
  accepted u [] = []
  accepted u (e ∷ es) = took u e ++ accepted (step append_segment self_prefix u e) es

  -- What holds of the names, the budget and the packets of a running uplink.
  pub record IsOrdered (u : Uplink Name Packet) (all : List Packet) (credit : ℕ) : Type 0 where
    pub packets : inside u ≡ all
    pub spent : length u.published + u.budget ≡ credit
    pub named :
        map (λ d. d.0) u.published ≡ names (append_segment self_prefix) (length u.published) 0
    pub next_seq : u.seq ≡ length u.published % seq_mod

  running_before :
      (u : Uplink Name Packet) (e : UplinkEvent Packet)
      → (step append_segment self_prefix u e).running ≡ true
      → u.running ≡ true
  unfolding step
  running_before u e h = ground arith

  map-append_one :
      (ds : List (Name × Packet)) (d : Name × Packet)
      → (map (λ d. d.1) (ds ++ (d ∷ [])) ≡ map (λ d. d.1) ds ++ (d.1 ∷ []))
        × (map (λ d. d.0) (ds ++ (d ∷ [])) ≡ map (λ d. d.0) ds ++ (d.0 ∷ []))
        × (length (ds ++ (d ∷ [])) ≡ suc (length ds))
  map-append_one [] d = (refl, refl, refl)
  map-append_one (c ∷ ds) d =
      let (packets, names, size) = map-append_one ds d in
      (ap (λ r. c.1 ∷ r) packets, ap (λ r. c.0 ∷ r) names, ap suc size)

  -- What a step adds: packets, budget, and names that go on where the old ones ended.
  record Adds (u u' : Uplink Name Packet) (more : List Packet) (credit : ℕ) : Type 0 where
    packets : inside u' ≡ inside u ++ more
    spent : length u'.published + u'.budget ≡ length u.published + u.budget + credit
    named :
        u.seq ≡ length u.published % seq_mod
        → map (λ d. d.0) u.published ≡ names (append_segment self_prefix) (length u.published) 0
        → (map (λ d. d.0) u'.published ≡ names (append_segment self_prefix) (length u'.published) 0)
          × (u'.seq ≡ length u'.published % seq_mod)

  Adds-nothing : (u : Uplink Name Packet) → Adds u u [] 0
  Adds-nothing u = record {
    packets = sym (append-nil (inside u));
    spent = omega arith;
    named = λ s n. (n, s);
  }

  stream-Adds :
      (u : Uplink Name Packet) (ok : Bool) (held : Option Packet) (budget : ℕ)
      → u.held ≡ held
      → u.budget ≡ budget
      → (stream append_segment self_prefix held budget ok u).running ≡ true
      → Adds u (stream append_segment self_prefix held budget ok u) [] 0
  unfolding stream
  stream-Adds u ok none budget eh eb r = Adds-nothing u
  stream-Adds u ok (some ip) zero eh eb r = Adds-nothing u
  stream-Adds u false (some ip) (suc budget) eh eb r = cc
  stream-Adds u true (some ip) (suc budget) eh eb r =
      let (packets, named, size) =
        map-append_one u.published (append_segment self_prefix u.seq, ip) in
      record {
        packets =
            rw (packets, eh, append-nil)
              (append_assoc (map (λ d. d.1) u.published) (ip ∷ []) u.queue);
        spent = omega (arith, size, eb);
        named = λ s n. (
          rw (
            named,
            size,
            names-suc (append_segment self_prefix) (length u.published) 0,
            ← n,
            zero-add,
            ← s,
          ),
          omega (arith, size, s),
        );
      }

  step-Adds :
      (u : Uplink Name Packet) (e : UplinkEvent Packet)
      → (step append_segment self_prefix u e).running ≡ true
      → Adds u (step append_segment self_prefix u e) (took u e) (granted (e ∷ []))
  unfolding step took granted
  step-Adds u (inject ip) h = record {
    packets = ground (
      arith,
      append_assoc (map (λ d. d.1) u.published) (of_option u.held ++ u.queue) (ip ∷ []),
      append_assoc (of_option u.held) u.queue (ip ∷ []),
      append-nil (inside u),
    );
    spent = ground arith;
    named = λ s n. (ground arith, ground arith);
  }
  step-Adds u (interest none) h = record {
    packets = sym (append-nil (inside u));
    spent = omega arith;
    named = λ s n. (n, s);
  }
  step-Adds u (interest (some credit)) h = record {
    packets = sym (append-nil (inside u));
    spent = omega arith;
    named = λ s n. (n, s);
  }
  step-Adds u receive h = record {
    packets = ground (arith, append-nil (inside u));
    spent = ground arith;
    named = λ s n. (ground arith, ground arith);
  }
  step-Adds u (publish ok) h = elim (Bool-cases u.running) [
    | inl r ↦ simp r (stream-Adds u ok u.held u.budget refl refl (simp r at h))
    | inr r ↦ simp r (Adds-nothing u)
  ]
  step-Adds u cancelled h = cc

  run_running :
      (es : List (UplinkEvent Packet)) (u : Uplink Name Packet)
      → (run append_segment self_prefix u es).running ≡ true
      → u.running ≡ true
  unfolding run
  run_running [] u h = h
  run_running (e ∷ es) u h =
      running_before u e (run_running es (step append_segment self_prefix u e) h)

  run_from-IsOrdered :
      (es : List (UplinkEvent Packet)) (u : Uplink Name Packet) (all : List Packet) (credit : ℕ)
      → IsOrdered u all credit
      → (run append_segment self_prefix u es).running ≡ true
      → IsOrdered (run append_segment self_prefix u es) (all ++ accepted u es) (credit + granted es)
  unfolding run accepted granted
  run_from-IsOrdered [] u all credit o h = record {
    packets = o.packets ∙ sym (append-nil all);
    spent = omega arith;
    named = o.named;
    next_seq = o.next_seq;
  }
  run_from-IsOrdered (e ∷ es) u all credit o h =
      let a = step-Adds u e (run_running es (step append_segment self_prefix u e) h) in
      let (named, next_seq) = a.named o.next_seq o.named in
      let o' : IsOrdered (step append_segment self_prefix u e) (all ++ took u e)
          (credit + granted (e ∷ [])) =
        record {
          packets = a.packets ∙ ap (λ r. r ++ took u e) o.packets;
          spent = omega arith;
          named = named;
          next_seq = next_seq;
        } in
      let r = run_from-IsOrdered es (step append_segment self_prefix u e) _ _ o' h in
      record {
        packets =
            r.packets
            ∙ append_assoc all (took u e) (accepted (step append_segment self_prefix u e) es);
        spent = omega (arith, granted-cons e es);
        named = r.named;
        next_seq = r.next_seq;
      }

  -- While the streamer runs, after any events: the packets that were published, then the one held
  -- and then those in the channel are the packets that were accepted from the OS, in order; the
  -- packets published and the budget left add up to what the Interests granted; and the Data have
  -- the names of consecutive sequence numbers from 0.
  pub run-IsOrdered :
      (es : List (UplinkEvent Packet))
      → (run append_segment self_prefix start es).running ≡ true
      → IsOrdered (run append_segment self_prefix start es) (accepted start es) (granted es)
  run-IsOrdered es h =
      let first : IsOrdered start [] 0 = record {
        packets = refl;
        spent = omega arith;
        named = unfold names in refl;
        next_seq = omega arith;
      } in
      let r = run_from-IsOrdered es start [] 0 first h in
      record { packets = r.packets; spent = omega arith; named = r.named; next_seq = r.next_seq }
