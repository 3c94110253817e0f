-- ===== src/Radio/Buffers.antt =====
-- What the buffers of a seam hold.
use ndn_mobile.Prelude.{
  ℕ, ◌≡◌, ◌≤◌, ◌+◌, ◌-◌, refl, sym, ap, ◌∙◌, arith, Bool, true, false, Bool-cases, ltb, leb, ltb→lt,
  leb→le, if◌then◌else◌, Option, none, some, List, [], ◌∷◌, ◌++◌, inl, inr, length, drop,
  length-append, length-drop, drop-append, drop-add,
}
use ndn_mobile.Text.{Text}
use ndn_mobile.Radio.{
  Frame, Seam, Event, followup, matched, next, drain, make_seam, address, try_send,
  deliver_followup, push_match, on_match, pop, next_followup, drain_matches, step, run,
  match_buffer_cap, queue_cap,
}

-- The matches since the last drain, but for those whose address has not six bytes.
abbrev note : Text → Option (List ℕ) → List (Text × List ℕ) → List (Text × List ℕ)
note service none seen = seen
note service (some peer) seen = seen ++ (service, peer) ∷ []

abbrev see : Event → List (Text × List ℕ) → List (Text × List ℕ)
see (matched service peer) seen = note service (address peer) seen
see drain seen = []
see e seen = seen

abbrev pub seen : List Event → List (Text × List ℕ) → List (Text × List ℕ)
seen [] old = old
seen (e ∷ es) old = seen es (see e old)

abbrev pub latest : List (Text × List ℕ) → List (Text × List ℕ)
latest xs = drop (length xs - match_buffer_cap) xs

module _ {A : Type 0} where
  shorter :
      (xs : List A) (x : A)
      → 64 ≤ length xs
      → drop (length (xs ++ x ∷ []) - 64) (xs ++ x ∷ [])
        ≡ drop 1 (drop (length xs - 64) xs) ++ x ∷ []
  shorter xs x h =
      ap (λ k. drop k (xs ++ x ∷ [])) {y = length xs - 64 + 1}
        (omega (arith, length-append xs (x ∷ [])))
      ∙ drop-append (length xs - 64 + 1) xs (x ∷ []) (omega arith)
      ∙ ap (λ t. t ++ x ∷ []) (drop-add (length xs - 64) 1 xs)

  whole : (xs : List A) (k : ℕ) → k ≡ 0 → drop k xs ≡ xs
  whole xs k e = ap (λ n. drop n xs) e

  test :
      (xs : List A) (b : Bool)
      → leb 64 (length xs) ≡ b
      → leb 64 (length (drop (length xs - 64) xs)) ≡ b
  test xs b e = ground (arith, e, length-drop (length xs - 64) xs)

  -- Dropping the oldest of 64 and adding one, or only adding one, leaves the latest 64.
  drop-snoc :
      (xs : List A) (x : A)
      → (if leb 64 (length (drop (length xs - 64) xs))
            then drop 1 (drop (length xs - 64) xs)
            else drop (length xs - 64) xs)
          ++ x ∷ []
        ≡ drop (length (xs ++ x ∷ []) - 64) (xs ++ x ∷ [])
  drop-snoc xs x = elim (Bool-cases (leb 64 (length xs))) [
    | inl h ↦ rw (test xs true h) (sym (shorter xs x (leb→le 64 (length xs) h)))
    | inr h ↦
        rw (test xs false h, whole xs (length xs - 64) (ground (arith, h)))
          (sym (
            whole (xs ++ x ∷ []) (length (xs ++ x ∷ []) - 64)
              (ground (arith, h, length-append xs (x ∷ [])))))
  ]

record Holds (xs : List (Text × List ℕ)) (s : Seam) : Type 0 where
  matches_eq : s.matches ≡ latest xs
  bounded : length s.queue ≤ queue_cap

push_match-Holds :
    (service : Text) (o : Option (List ℕ)) (xs : List (Text × List ℕ)) (s : Seam)
    → Holds xs s
    → Holds (note service o xs) (push_match service o s)
unfolding push_match
push_match-Holds service none xs s h = h
push_match-Holds service (some peer) xs s h = record {
  matches_eq = rw h.matches_eq (drop-snoc xs (service, peer));
  bounded = h.bounded;
}

try_send-bounded :
    {A : Type 0} (f : A) (q : List A) → length q ≤ queue_cap → length (try_send f q) ≤ queue_cap
unfolding try_send
try_send-bounded f q h = elim (Bool-cases (ltb (length q) queue_cap)) [
  | inl b ↦ rw (b, length-append q (f ∷ [])) (omega (arith, ltb→lt (length q) queue_cap b))
  | inr b ↦ rw b h
]

pop-Holds :
    (q : List Frame) (xs : List (Text × List ℕ)) (s : Seam)
    → s.queue ≡ q
    → Holds xs s
    → Holds xs (pop q s).1
unfolding pop
pop-Holds [] xs s e h = h
pop-Holds (f ∷ q) xs s e h = record {
  matches_eq = h.matches_eq;
  bounded = omega (arith, ap length e, h.bounded);
}

step-Holds :
    (e : Event) (xs : List (Text × List ℕ)) (s : Seam) → Holds xs s → Holds (see e xs) (step e s)
unfolding step deliver_followup on_match next_followup drain_matches
step-Holds (followup frame peer rssi) xs s h = record {
  matches_eq = h.matches_eq;
  bounded = try_send-bounded _ s.queue h.bounded;
}
step-Holds (matched service peer) xs s h = push_match-Holds service (address peer) xs s h
step-Holds next xs s h = pop-Holds s.queue xs s refl h
step-Holds drain xs s h = record { matches_eq = refl; bounded = h.bounded }

run-Holds :
    (es : List Event) (xs : List (Text × List ℕ)) (s : Seam)
    → Holds xs s
    → Holds (seen es xs) (run es s)
run-Holds [] xs s h = h
run-Holds (e ∷ es) xs s h = run-Holds es (see e xs) (step e s) (step-Holds e xs s h)

-- After any events, a seam holds the latest 64 of the matches since the last drain, in order, and no
-- match whose address has not six bytes; and at most 256 frames wait.
pub run_keeps_latest :
    (es : List Event)
    → ((run es make_seam).matches ≡ latest (seen es []))
      × (length (run es make_seam).queue ≤ queue_cap)
run_keeps_latest es =
    let h = run-Holds es [] make_seam (record { matches_eq = refl; bounded = omega arith }) in
    (h.matches_eq, h.bounded)
