-- ===== src/Tests/RelayTests.antt =====
-- Runs of the object relay over a small library of names.
use ndn_mobile.Prelude.{ℕ, ◌+◌, ◌≤◌, ◌≡◌, ◌≢◌, refl, arith, true, Option, none, some, List, [], ◌∷◌}
use ndn_mobile.Relay
use ndn_mobile.Relay.{
  Library, Data, Event, interest, loop, refetched, subscribed, received, notified, respond,
  spawn_refetch, pacing,
}
use ndn_mobile.Relay.Pacing.{run_lead}
use ndn_mobile.Relay.Stall.{IsStuck, run-IsStuck}
use ndn_mobile.Relay.Refetch.{CameIn, AllOurs, run_signed, run_refetches}

-- A name is a prefix and perhaps a segment; a wire is what was signed.
abbrev TestName : Type 0
TestName = ℕ × Option ℕ

abbrev answer : TestName → Option (TestName × ℕ)
answer (prefix, none) = some ((prefix, none), 0)
answer (prefix, some seg) = none

abbrev parent : TestName → Option TestName
parent (prefix, none) = none
parent (prefix, some seg) = some (prefix, none)

abbrev lib : Library
lib = record {
  Name = TestName;
  Content = ℕ;
  Wire = TestName × ℕ;
  last_segment = λ n. n.1;
  parent = parent;
  append_segment = λ n seg. (n.0, some seg);
  no_content = 0;
  answer = answer;
  sign = λ n c. some (n, c);
}

has_parent : (name : TestName) (seg : ℕ) → name.1 ≡ some seg → parent name ≢ none
has_parent (prefix, none) seg e h = cc
has_parent (prefix, some s) seg e h = cc

abbrev public : TestName
public = (1, none)

abbrev leaf : ℕ → ℕ → Data lib
leaf seg content = record { name = (2, some seg); content = some content }

-- The object has segments 0 to 9, the lookahead is 1.
abbrev events : List (Event lib)
events =
    interest (1, some 0)
    ∷ loop (subscribed true)
    ∷ loop (received (leaf 0 50))
    ∷ loop (received (leaf 1 51))
    ∷ loop (received (leaf 2 52))
    ∷ []

-- After two segments the relay waits, and the third is not read.
paced :
    let r = Relay.run lib public 9 1 (Relay.start lib) events in
    (r.produced ≡ 2) × (r.phase ≡ pacing)
unfolding Relay.run Relay.step
paced = (refl, refl)

run_lead_example :
    let r = Relay.run lib public 9 1 (Relay.start lib) events in r.produced ≤ r.front + 1 + 1
unfolding Relay.run Relay.step
run_lead_example = run_lead lib public 9 1 events (omega arith) (omega arith) (omega arith)

run_signed_example :
    AllOurs lib public 9 1
      (CameIn lib events)
      (Relay.run lib public 9 1 (Relay.start lib) events).cs
run_signed_example = run_signed lib public 9 1 has_parent events

run_refetches_example :
    (source : TestName) × ((Relay.handle lib
        (Relay.run lib public 9 1 (Relay.start lib) events)
        (1, some 1)).1
      ≡ spawn_refetch source 1)
unfolding Relay.run Relay.step
run_refetches_example =
    run_refetches lib public 9 1 has_parent events (1, some 1) 1 refl refl (omega arith)

-- One Interest for the last 64-bit segment, while the relay waits.
abbrev huge : List (Event lib)
huge = interest (1, some 18446744073709551615) ∷ loop notified ∷ []

run-IsStuck_example :
    IsStuck lib public 9 1
      (Relay.run lib public 9 1
        (Relay.run lib public 9 1 (Relay.run lib public 9 1 (Relay.start lib) events) huge)
        (interest (1, some 5) ∷ loop notified ∷ []))
      2
unfolding Relay.run Relay.step
run-IsStuck_example =
    run-IsStuck lib public 9 1 2 (omega arith) (omega arith) (omega arith)
      (interest (1, some 5) ∷ loop notified ∷ [])
      (Relay.run lib public 9 1 (Relay.run lib public 9 1 (Relay.start lib) events) huge)
      (omega arith, (tt, tt))
      (record {
        waits = refl;
        front_word = omega arith;
        wrapped = omega arith;
        at = refl;
        running = refl;
      })
