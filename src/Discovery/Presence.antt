-- ===== src/Discovery/Presence.antt =====
-- Who is in the table, and for how long.
use ndn_mobile.Prelude.{
  ℕ, ◌≡◌, ◌≤◌, ◌-◌, ◌+◌, refl, sym, ap, ◌∙◌, arith, Bool, true, false, ◌||◌, ltb, if◌then◌else◌,
  Option, none, some, List, [], ◌∷◌, null, Bool-cases, inl, inr, subst,
}
use ndn_mobile.Text.{Text, same}
use ndn_mobile.Text.Order.{same_iff}
use ndn_mobile.Text.Print.{ℤ}
use ndn_mobile.Text.Map.{lookup, IsAscending, lookup-insert, insert-IsAscending}
use ndn_mobile.Discovery.Aging.{fresh, retain-IsAscending, lookup-retain}
use ndn_mobile.Discovery.{
  PeerEntry, DiscoveryState, Event, beacon, interest, new, note_peer, refresh, or_insert_with,
  fresh_entry, alive, snapshot_json, step, run, peer_ttl,
}

-- The time of the latest beacon of a peer, but for the node's own and those with no id.
abbrev hear : Text → Text → Option ℕ → Event → Option ℕ
hear local_id id last (beacon now j _ _ _ _) =
    if null j || same j local_id then last else if same j id then some now else last
hear local_id id last (interest _) = last

abbrev pub heard : Text → Text → Option ℕ → List Event → Option ℕ
heard local_id id last [] = last
heard local_id id last (e ∷ es) = heard local_id id (hear local_id id last e) es

abbrev pub time : Event → ℕ
time (beacon now _ _ _ _ _) = now
time (interest now) = now

-- The clock never goes back, from `now` on to `until`.
abbrev pub IsChronological : ℕ → List Event → ℕ → Type 0
IsChronological now [] until = now ≤ until
IsChronological now (e ∷ es) until = (now ≤ time e) × IsChronological (time e) es until

abbrev pub recent : ℕ → Option ℕ → Bool
recent now none = false
recent now (some t) = ltb (now - t) peer_ttl

abbrev pub listed : Option PeerEntry → Bool
listed none = false
listed (some e) = true

-- The entry of a peer last heard at some time, or what is left of it.
abbrev Tracks : ℕ → Option ℕ → Option PeerEntry → Type 0
Tracks clock none none = Unit
Tracks clock none (some e) = ⊥
Tracks clock (some t) none = t + peer_ttl ≤ clock
Tracks clock (some t) (some e) = e.last_seen ≡ t

Tracks-later :
    (a b : ℕ) (last : Option ℕ) (o : Option PeerEntry) → a ≤ b → Tracks a last o → Tracks b last o
Tracks-later a b none none h t = tt
Tracks-later a b none (some e) h t = absurd t
Tracks-later a b (some t) none h k = omega arith
Tracks-later a b (some t) (some e) h k = k

stale : (now t : ℕ) → ltb (now - t) peer_ttl ≡ false → t + peer_ttl ≤ now
stale now t h = ground arith

fresh-Tracks :
    (now : ℕ) (last : Option ℕ) (o : Option PeerEntry)
    → Tracks now last o
    → Tracks now last (fresh now o)
unfolding alive
fresh-Tracks now none none t = tt
fresh-Tracks now none (some e) t = absurd t
fresh-Tracks now (some t) none k = k
fresh-Tracks now (some t) (some e) k = elim (Bool-cases (alive now e)) [
  | inl h ↦ rw h k
  | inr h ↦ rw h (stale now t (subst (λ u. ltb (now - u) peer_ttl ≡ false) k h))
]

listed-fresh :
    (now : ℕ) (last : Option ℕ) (o : Option PeerEntry)
    → Tracks now last o
    → listed (fresh now o) ≡ recent now last
unfolding alive
listed-fresh now none none t = refl
listed-fresh now none (some e) t = absurd t
listed-fresh now (some t) none k = ground arith
listed-fresh now (some t) (some e) k = elim (Bool-cases (alive now e)) [
  | inl h ↦ rw h (sym (subst (λ u. ltb (now - u) peer_ttl ≡ true) k h))
  | inr h ↦ rw h (sym (subst (λ u. ltb (now - u) peer_ttl ≡ false) k h))
]

record Agrees (clock : ℕ) (local_id id : Text) (last : Option ℕ) (s : DiscoveryState) : Type 0 where
  local : s.local_id ≡ local_id
  ascending : IsAscending s.peers
  tracks : Tracks clock last (lookup id s.peers)

note_peer-Agrees :
    (clock now : ℕ) (local_id id : Text) (last : Option ℕ) (j label face : Text) (rssi : ℤ)
    (infra : Option Text) (s : DiscoveryState)
    → clock ≤ now
    → Agrees clock local_id id last s
    → Agrees now local_id id
        (hear local_id id last (beacon now j label face rssi infra))
        (note_peer now j label face rssi infra s)
unfolding note_peer refresh
note_peer-Agrees clock now local_id id last j label face rssi infra s h a =
    elim (Bool-cases (null j || same j s.local_id)) [
      | inl i ↦
          rw (i, subst (λ t. (null j || same j t) ≡ true) a.local i)
            (record {
              local = a.local;
              ascending = a.ascending;
              tracks = Tracks-later clock now last (lookup id s.peers) h a.tracks;
            })
      | inr i ↦
          let e =
            refresh now label face rssi infra
              (or_insert_with (lookup j s.peers) (fresh_entry now label rssi)) in
          rw (i, subst (λ t. (null j || same j t) ≡ false) a.local i)
            (record {
              local = a.local;
              ascending = insert-IsAscending j e s.peers a.ascending;
              tracks = rw (lookup-insert j id e s.peers) (elim (Bool-cases (same j id)) [
                | inl k ↦ rw k refl
                | inr k ↦ rw k (Tracks-later clock now last (lookup id s.peers) h a.tracks)
              ]);
            })
    ]

heard_excluded :
    (local_id id : Text) (es : List Event)
    → (null id || same id local_id) ≡ true
    → heard local_id id none es ≡ none
heard_excluded local_id id [] h = refl
heard_excluded local_id id (beacon now j label face rssi infra ∷ es) h =
    elim (Bool-cases (null j || same j local_id)) [
      | inl i ↦ rw i (heard_excluded local_id id es h)
      | inr i ↦ elim (Bool-cases (same j id)) [
        | inl k ↦ absurd (
            ground (
              arith,
              i,
              subst (λ t. (null t || same t local_id) ≡ true) (sym ((same_iff j id).0 k)) h,
            ))
        | inr k ↦ rw (i, k) (heard_excluded local_id id es h)
      ]
    ]
heard_excluded local_id id (interest now ∷ es) h = heard_excluded local_id id es h

module _ (iter : List (Text × PeerEntry) → List (Text × PeerEntry)) where
  interest-Agrees :
      (clock now : ℕ) (local_id id : Text) (last : Option ℕ) (s : DiscoveryState)
      → clock ≤ now
      → Agrees clock local_id id last s
      → Agrees now local_id id last (snapshot_json iter now s).1
  unfolding snapshot_json
  interest-Agrees clock now local_id id last s h a = record {
    local = a.local;
    ascending = retain-IsAscending now s.peers a.ascending;
    tracks = rw (lookup-retain now id s.peers a.ascending) (
        fresh-Tracks now last (lookup id s.peers)
          (Tracks-later clock now last (lookup id s.peers) h a.tracks));
  }

  step-Agrees :
      (clock : ℕ) (local_id id : Text) (last : Option ℕ) (e : Event) (s : DiscoveryState)
      → clock ≤ time e
      → Agrees clock local_id id last s
      → Agrees (time e) local_id id (hear local_id id last e) (step iter e s)
  unfolding step
  step-Agrees clock local_id id last (beacon now j label face rssi infra) s h a =
      note_peer-Agrees clock now local_id id last j label face rssi infra s h a
  step-Agrees clock local_id id last (interest now) s h a =
      interest-Agrees clock now local_id id last s h a

  listed-run :
      (clock until : ℕ) (local_id id : Text) (last : Option ℕ) (es : List Event)
      (s : DiscoveryState)
      → IsChronological clock es until
      → Agrees clock local_id id last s
      → listed (lookup id (snapshot_json iter until (run iter es s)).1.peers)
        ≡ recent until (heard local_id id last es)
  unfolding snapshot_json
  listed-run clock until local_id id last [] s h a =
      rw (lookup-retain until id s.peers a.ascending) (
        listed-fresh until last (lookup id s.peers)
          (Tracks-later clock until last (lookup id s.peers) h a.tracks))
  listed-run clock until local_id id last (e ∷ es) s h a =
      listed-run (time e) until local_id id (hear local_id id last e) es (step iter e s) h.1
        (step-Agrees clock local_id id last e s h.0 a)

  -- After any beacons and dataset Interests in the order of their times, in whatever order the hash
  -- map iterates, the table behind a snapshot has a peer exactly if its latest beacon is less than
  -- 30 seconds old, beacons with the node's own id or with no id left aside.
  pub run_lists_recent :
      (local_id local_label id : Text) (es : List Event) (until : ℕ)
      → IsChronological 0 es until
      → listed
          (lookup id (snapshot_json iter until (run iter es (new local_id local_label))).1.peers)
        ≡ recent until (heard local_id id none es)
  unfolding new lookup
  run_lists_recent local_id local_label id es until h =
      listed-run 0 until local_id id none es (new local_id local_label) h
        (record { local = refl; ascending = tt; tracks = tt })

  -- After any beacons and dataset Interests in the order of their times, the table behind a snapshot
  -- has neither the node itself nor a peer with no id, whatever the beacons said.
  pub run_never_lists_self :
      (local_id local_label id : Text) (es : List Event) (until : ℕ)
      → IsChronological 0 es until
      → (null id || same id local_id) ≡ true
      → listed
          (lookup id (snapshot_json iter until (run iter es (new local_id local_label))).1.peers)
        ≡ false
  run_never_lists_self local_id local_label id es until h e =
      run_lists_recent local_id local_label id es until h
      ∙ ap (recent until) (heard_excluded local_id id es e)
