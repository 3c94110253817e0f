-- ===== src/RemoteSigner/Correlation.antt =====
-- Which replies a signature is taken from.
use ndn_mobile.Prelude.{ℕ, ◌≡◌, refl, arith, true, Bool-cases, List, ◌⊎◌, inl, inr}
use ndn_mobile.Text.{Text}
use ndn_mobile.RemoteSigner.{
  Library, Response, approved, denied, RemoteSignerClient, decode_reply, answer, or_empty,
  correlate, receive, send, request, sign,
}

module _ (lib : Library) where
  open lib use {World, Name, Wire, Data}

  -- The reply is Data of the expected name that approves with this signature.
  abbrev pub Approves : Name → List ℕ → Wire → Type 0
  Approves expected signature reply =
      (d : Data) × (decode_reply lib reply ≡ inr d)
      × (lib.same_name (lib.data_name d) expected ≡ true)
      × (lib.decode_response (or_empty lib (lib.content d)) ≡ inr (approved signature))

  answer-approved :
      (r : Text ⊎ Response) (signature : List ℕ)
      → answer lib r ≡ inr signature
      → r ≡ inr (approved signature)
  unfolding answer
  answer-approved (inl e) signature h = absurd (ground (arith, h))
  answer-approved (inr denied) signature h = absurd (ground (arith, h))
  answer-approved (inr (approved s)) signature h = ground (arith, h)

  correlate-Approves :
      (expected : Name) (reply : Wire) (r : Text ⊎ Data) (signature : List ℕ)
      → decode_reply lib reply ≡ r
      → correlate lib expected r ≡ inr signature
      → Approves expected signature reply
  unfolding correlate
  correlate-Approves expected reply (inl e) signature q h = absurd (ground (arith, h))
  correlate-Approves expected reply (inr d) signature q h =
      elim (Bool-cases (lib.same_name (lib.data_name d) expected)) [
        | inl s ↦ (d, q, s, answer-approved _ signature (simp s at h))
        | inr s ↦ absurd (ground (arith, simp s at h))
      ]

  receive-Approves :
      (expected : Name) (r : Text ⊎ Wire) (signature : List ℕ)
      → receive lib expected r ≡ inr signature
      → (reply : Wire) × (r ≡ inr reply) × Approves expected signature reply
  unfolding receive
  receive-Approves expected (inl e) signature h = absurd (ground (arith, h))
  receive-Approves expected (inr reply) signature h =
      (reply, refl, correlate-Approves expected reply (decode_reply lib reply) signature refl h)

  send-Approves :
      (wire : Wire) (o : Text ⊎ Name) (w : World) (signature : List ℕ)
      → (send lib wire o w).0 ≡ inr signature
      → (expected : Name) × (reply : Wire) × (o ≡ inr expected)
        × ((lib.fetch_correlated expected wire w).0 ≡ inr reply)
        × Approves expected signature reply
  unfolding send
  send-Approves wire (inl e) w signature h = absurd (ground (arith, h))
  send-Approves wire (inr expected) w signature h =
      let (reply, e, a) = receive-Approves expected _ signature h in (expected, reply, refl, e, a)

  -- Whatever comes back: where `sign` returns a signature, the reply that was fetched for the name of
  -- this very request is Data of that name, and the signature is the one its content approves with.
  pub sign-Approves :
      (region : List ℕ) (c : RemoteSignerClient lib) (w : World) (signature : List ℕ)
      → (sign lib region c w).0.0 ≡ inr signature
      → (expected : Name) × (reply : Wire) × (lib.interest_name (request lib c region)
          ≡ inr expected)
        × ((lib.fetch_correlated expected (request lib c region) w).0 ≡ inr reply)
        × Approves expected signature reply
  unfolding sign
  sign-Approves region c w signature h =
      send-Approves (request lib c region) (lib.interest_name (request lib c region)) w signature h
