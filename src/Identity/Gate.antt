-- ===== src/Identity/Gate.antt =====
-- What the responder signs, and that serving is answering.
use ndn_mobile.Prelude.{
  ℕ, ◌≡◌, refl, sym, ap, ◌∙◌, arith, Bool, true, false, Option, none, some, List, ◌⊎◌, inl, inr,
}
use ndn_mobile.Text.{Text}
use ndn_mobile.Types.{NdnError, identity}
use ndn_mobile.Identity.{
  Parts, IdentityCore, Decision, auto_approve, prompt, SignRequest, SignResponse, approved, denied,
  and_then, map_err, loaded_signer, ok_or, lift, bind, no_identity,
}
use ndn_mobile.Identity.Responder.{
  Gate, Job, signing_summary, by_decision, approve, response_of, sign_request, if_approved, answer,
  encoded, respond_to_sign_request, snapshot, as_request, requested, decide, user_says, reply,
}

module _ (p : Parts) where
  open p use {lib}
  open lib use {World, Signer}

  -- The policy approves of the region at the time of the clock, or the gate does, for the summary of
  -- this region.
  abbrev pub IsAllowed : IdentityCore p → List ℕ → Gate p → World → Type 0
  IsAllowed s region gate w' =
      let (now, w) = p.keys.clock s.world in
      (((p.decide s.sign_policy region now ≡ auto_approve) × (w ≡ w'))
        ⊎ (gate (signing_summary p region) w ≡ (true, w')))

  pub record IsGranted (s s' : IdentityCore p) (req : SignRequest) (gate : Gate p)
      (signature : List ℕ) : Type 0 where
    pub signer : Signer
    pub at : World
    pub loaded : s.identity ≡ some signer
    pub allowed : IsAllowed s req.region gate at
    pub signed : p.sign_region signer req.region at ≡ (inr signature, s'.world)
    pub unchanged : s' ≡ record s { world = s'.world }

  -- The serve loop's turn for one Interest with no other call in between; Serving has its parts.
  abbrev pub take_up :
      Option SignRequest → Gate p → IdentityCore p → Option (Job p) × IdentityCore p
  take_up none gate s = (none, s)
  take_up (some req) gate s =
      let (d, s) = decide p req s in
      let (allowed, s) = user_says p gate req d s in (some (req, snapshot p allowed s), s)

  abbrev pub accept : Option (List ℕ) → Gate p → IdentityCore p → Option (Job p) × IdentityCore p
  accept params gate s = take_up (requested p params) gate s

  -- One request served to its end.
  abbrev pub served : Option (Job p) × IdentityCore p → Option (List ℕ) × IdentityCore p
  served (none, s) = (none, s)
  served (some job, s) =
      let (content, w) = reply p job s.world in (some content, record s { world = w })

  -- What is served where the answer is an error: nothing for what is no request, else a denial.
  abbrev pub told :
      Text ⊎ SignRequest → (NdnError ⊎ List ℕ) × IdentityCore p → Option (List ℕ) × IdentityCore p
  told req (inr response, s) = (some response, s)
  told (inl e) (inl f, s) = (none, s)
  told (inr req) (inl f, s) = (some (p.encode_response (denied req.req_id)), s)

  -- With the signer of the core, or without one.
  served-loaded :
      (req : SignRequest) (o : Option Signer) (s : IdentityCore p)
      → served (some (req, o), s)
        ≡ told
            (inr req)
            (bind p (bind p (ok_or p (no_identity p) o) (sign_request p req)) (encoded p) s)
  unfolding and_then reply ok_or sign_request lift encoded
  served-loaded req none s = refl
  served-loaded req (some signer) s = refl

  served-allowed :
      (req : SignRequest) (allowed : Bool) (s : IdentityCore p)
      → served (some (req, snapshot p allowed s), s)
        ≡ told (inr req) (bind p (if_approved p req allowed) (encoded p) s)
  unfolding snapshot if_approved and_then reply loaded_signer encoded
  served-allowed req false s = refl
  served-allowed req true s = served-loaded req s.identity s

  served-take_up :
      (r : Text ⊎ SignRequest) (gate : Gate p) (s : IdentityCore p)
      → served (take_up (as_request p r) gate s)
        ≡ told r (bind p (map_err p identity r) (λ req. bind p (answer p req gate) (encoded p)) s)
  unfolding as_request decide user_says map_err and_then answer approve
  served-take_up (inl e) gate s = refl
  served-take_up (inr req) gate s =
      let t = approve p gate req.region s in served-allowed req t.0 t.1

  -- Serving a request, with no other call in between, gives the reply that answering it gives, with the same effects, where that
  -- gives one. Where it fails, nothing is sent for what is no request, and a denial otherwise.
  pub served-accept :
      (wire : List ℕ) (gate : Gate p) (s : IdentityCore p)
      → served (accept (some wire) gate s)
        ≡ told (p.decode_request wire) (respond_to_sign_request p wire gate s)
  unfolding requested respond_to_sign_request
  served-accept wire gate s = served-take_up (p.decode_request wire) gate s

  pub by_decision-allowed :
      (gate : Gate p) (region : List ℕ) (d : Decision) (w w' : World)
      → by_decision p gate region d w ≡ (true, w')
      → ((d ≡ auto_approve) × (w ≡ w')) ⊎ (gate (signing_summary p region) w ≡ (true, w'))
  unfolding by_decision
  by_decision-allowed gate region auto_approve w w' e = inl (refl, ap (λ x. x.1) e)
  by_decision-allowed gate region prompt w w' e = inr e

  -- How an approved response came about, from what the signer gave.
  response-signed :
      (req : SignRequest) (t s' : IdentityCore p) (id : ℕ) (signature : List ℕ)
      (r : (Text ⊎ List ℕ) × World)
      → ◌≡◌ {A = (NdnError ⊎ SignResponse) × IdentityCore p}
          (inr (response_of p req.req_id r.0), record t { world = r.1 })
          (inr (approved id signature), s')
      → (id ≡ req.req_id) × ((r ≡ (inr signature, s'.world)) × (s' ≡ record t { world = s'.world }))
  unfolding response_of
  response-signed req t s' id signature (inl x, w) e = absurd (ground (arith, ap (λ y. y.0) e))
  response-signed req t s' id signature (inr sg, w) e =
      let k = ap (λ y. y.0) e in
      let q = ap (λ y. y.1) e in
      (
        ground (arith, k),
        (
          ap (λ v. (inr sg, v)) (ap (λ y. y.world) q)
              ∙ ap (λ v. (inr v, s'.world)) (ground (arith, k)),
          sym q ∙ ap (λ v. record t { world = v }) (ap (λ y. y.world) q),
        ),
      )

  record IsSigned (o : Option Signer) (t s' : IdentityCore p) (req : SignRequest) (id : ℕ)
      (signature : List ℕ) : Type 0 where
    signer : Signer
    loaded : o ≡ some signer
    same_id : id ≡ req.req_id
    signed : p.sign_region signer req.region t.world ≡ (inr signature, s'.world)
    unchanged : s' ≡ record t { world = s'.world }

  loaded-IsSigned :
      (o : Option Signer) (req : SignRequest) (t s' : IdentityCore p) (id : ℕ) (signature : List ℕ)
      → bind p (ok_or p (no_identity p) o) (sign_request p req) t
        ≡ (inr (approved id signature), s')
      → IsSigned o t s' req id signature
  unfolding ok_or and_then sign_request lift
  loaded-IsSigned none req t s' id signature e = absurd (ground (arith, ap (λ y. y.0) e))
  loaded-IsSigned (some signer) req t s' id signature e =
      let (i, (g, u)) =
        response-signed req t s' id signature (p.sign_region signer req.region t.world) e in
      record { signer = signer; loaded = refl; same_id = i; signed = g; unchanged = u }

  allowed-IsGranted :
      (req : SignRequest) (gate : Gate p) (s s' : IdentityCore p) (id : ℕ) (signature : List ℕ)
      (d : Bool × World)
      → (d.0 ≡ true → IsAllowed s req.region gate d.1)
      → if_approved p req d.0 (record s { world = d.1 }) ≡ (inr (approved id signature), s')
      → (id ≡ req.req_id) × IsGranted s s' req gate signature
  unfolding if_approved and_then loaded_signer
  allowed-IsGranted req gate s s' id signature (false, w) f e =
      absurd (ground (arith, ap (λ y. y.0) e))
  allowed-IsGranted req gate s s' id signature (true, w) f e =
      let k = loaded-IsSigned s.identity req (record s { world = w }) s' id signature e in
      (
        k.same_id,
        record {
          signer = k.signer;
          at = w;
          loaded = k.loaded;
          allowed = f refl;
          signed = k.signed;
          unchanged = k.unchanged;
        },
      )

  -- A signature is given only where the policy approves of the request's region, or the user does on
  -- seeing the summary of that region; it is the loaded identity's over that region, for that
  -- request's id, and nothing but the world changes.
  pub answer-IsGranted :
      (req : SignRequest) (gate : Gate p) (s s' : IdentityCore p) (id : ℕ) (signature : List ℕ)
      → answer p req gate s ≡ (inr (approved id signature), s')
      → (id ≡ req.req_id) × IsGranted s s' req gate signature
  unfolding answer approve
  answer-IsGranted req gate s s' id signature e =
      let now = p.keys.clock s.world in
      let d = by_decision p gate req.region (p.decide s.sign_policy req.region now.0) now.1 in
      allowed-IsGranted req gate s s' id signature d
        (λ h. by_decision-allowed gate req.region _ now.1 d.1 (ap (λ b. (b, d.1)) h)) e
