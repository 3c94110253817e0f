-- ===== src/Identity/Responder.antt =====
-- The remote signer's responder: it answers one request, or serves them.
use ndn_mobile.Prelude.{
  ℕ, ◌+◌, ◌*◌, ◌%◌, ◌^◌, min, max, Bool, true, false, Option, none, some, List, ◌++◌, ◌⊎◌, inl, inr,
  length,
}
use ndn_mobile.Text.{Text, codes}
use ndn_mobile.Text.Print.{decimal}
use ndn_mobile.Types.{identity}
use ndn_mobile.Identity.{
  Parts, IdentityCore, ActionClass, route, face, strategy, content_store, other, Decision,
  auto_approve, prompt, SignRequest, SignResponse, approved, denied, Act, ◌>>=◌, ◌>>◌, return, lift,
  map_err, get, modify, loaded_signer,
}

pub data NdnActionClass : Type 0 where
  any_class : NdnActionClass
  route_class : NdnActionClass
  face_class : NdnActionClass
  strategy_class : NdnActionClass
  content_store_class : NdnActionClass
  other_class : NdnActionClass

unfoldable pub action_filter : NdnActionClass → Option ActionClass
action_filter any_class = none
action_filter route_class = some route
action_filter face_class = some face
action_filter strategy_class = some strategy
action_filter content_store_class = some content_store
action_filter other_class = some other

-- One day.
abbrev pub max_ttl_secs : ℕ
max_ttl_secs = 24 * 60 * 60

module _ (p : Parts) where
  open p use {lib}
  open lib use {World, Name, Signer}

  unfoldable pub summary_of : Option Name → List ℕ → Text
  summary_of (some name) region = codes "Authorize signing for " ++ p.to_string name
  summary_of none region = codes "Authorize signing " ++ decimal (length region) ++ codes " bytes"

  unfoldable pub signing_summary : List ℕ → Text
  signing_summary region = summary_of (p.decode_name region) region

  -- `NdnApprovalGate`: the user's answer to a summary.
  abbrev pub Gate : Type 0
  Gate = Text → World → Bool × World

  unfoldable pub by_decision : Gate → List ℕ → Decision → World → Bool × World
  by_decision gate region auto_approve w = (true, w)
  by_decision gate region prompt w = gate (signing_summary region) w

  unfoldable pub approve : Gate → List ℕ → IdentityCore p → Bool × IdentityCore p
  approve gate region s =
      let (now, w) = p.keys.clock s.world in
      let (allowed, w') = by_decision gate region (p.decide s.sign_policy region now) w in
      (allowed, record s { world = w' })

  unfoldable pub response_of : ℕ → Text ⊎ List ℕ → SignResponse
  response_of req_id (inl e) = denied req_id
  response_of req_id (inr signature) = approved req_id signature

  unfoldable pub sign_request : SignRequest → Signer → Act p SignResponse
  sign_request req signer = do
    result ← lift p (p.sign_region signer req.region)
    return p (response_of req.req_id result)

  unfoldable pub if_approved : SignRequest → Bool → Act p SignResponse
  if_approved req false = return p (denied req.req_id)
  if_approved req true = do signer ← loaded_signer p; sign_request req signer

  unfoldable pub answer : SignRequest → Gate → Act p SignResponse
  answer req gate s = let (allowed, s') = approve gate req.region s in if_approved req allowed s'

  unfoldable pub encoded : SignResponse → Act p (List ℕ)
  encoded response = return p (p.encode_response response)

  unfoldable pub respond_to_sign_request : List ℕ → Gate → Act p (List ℕ)
  respond_to_sign_request request gate = do
    req ← map_err p identity (p.decode_request request)
    response ← answer req gate
    encoded response

  -- A request that was taken up, with the signer if it was approved and there is one.
  abbrev pub Job : Type 0
  Job = SignRequest × Option Signer

  unfoldable pub snapshot : Bool → IdentityCore p → Option Signer
  snapshot false s = none
  snapshot true s = s.identity

  -- The parts of the serve loop's turn for one Interest. First, the parameters that are a request.
  unfoldable pub as_request : Text ⊎ SignRequest → Option SignRequest
  as_request (inl e) = none
  as_request (inr req) = some req

  unfoldable pub requested : Option (List ℕ) → Option SignRequest
  requested none = none
  requested (some req_wire) = as_request (p.decode_request req_wire)

  -- Then what the policy says, and what the user does where the policy leaves it to the gate.
  unfoldable pub decide : SignRequest → IdentityCore p → Decision × IdentityCore p
  decide req s =
      let (now, w) = p.keys.clock s.world in
      (p.decide s.sign_policy req.region now, record s { world = w })

  unfoldable pub user_says : Gate → SignRequest → Decision → IdentityCore p → Bool × IdentityCore p
  user_says gate req d s =
      let (allowed, w) = by_decision gate req.region d s.world in (allowed, record s { world = w })

  -- The spawned task's part: the content of the reply.
  unfoldable pub reply : Job → World → List ℕ × World
  reply (req, none) w = (p.encode_response (denied req.req_id), w)
  reply (req, some signer) w =
      let (r, w') = p.sign_region signer req.region w in
      (p.encode_response (response_of req.req_id r), w')

  -- The number of grants that stand, as 32 bits.
  unfoldable pub active_signing_scopes : Act p ℕ
  active_signing_scopes = do
    policy ← get p (λ s. s.sign_policy)
    now ← lift p p.keys.clock
    return p (p.active_grants policy now % 2 ^ 32)

  unfoldable pub clamp : ℕ → ℕ
  clamp ttl_secs = min (max ttl_secs 1) max_ttl_secs

  unfoldable pub grant_signing_scope : NdnActionClass → ℕ → Act p ℕ
  grant_signing_scope action ttl_secs = do
    now ← lift p p.keys.clock
    modify p (λ s. record s {
      sign_policy =
          p.grant
            (record {
              expires_at = now + clamp ttl_secs * 1000000000;
              action_filter = action_filter action;
            })
            s.sign_policy;
    })
    active_signing_scopes

  unfoldable pub stop_signing_scope : Act p Unit
  stop_signing_scope = modify p (λ s. record s { sign_policy = p.clear s.sign_policy })
