-- ===== src/Identity/Serving/Founded.antt =====
-- What a reply of the remote signer's responder goes back to, as the turns before it show.
use ndn_mobile.Prelude.{
  ℕ, zero, suc, ◌≡◌, refl, ap, ◌∙◌, All, Bool, true, false, Option, none, some, List, [], ◌∷◌, ◌++◌,
  ◌⊎◌, inl, inr, append_assoc,
}
use ndn_mobile.Text.{Text}
use ndn_mobile.Identity.{
  Parts, IdentityCore, SignRequest, Decision, auto_approve, prompt, approved, denied,
}
use ndn_mobile.Identity.Responder.{
  Gate, Job, signing_summary, by_decision, response_of, as_request, requested, snapshot, reply,
}
use ndn_mobile.Identity.Serving.{
  Loop, free, deciding, judged, Responder, Turn, arrives, remove_at, run, idle,
}

pub remove_at-All :
    {A : Type 0} (P : A → Type 1) (i : ℕ) (xs : List A) → All P xs → All P (remove_at i xs)
unfolding remove_at
remove_at-All P i [] ps = tt
remove_at-All P zero (x ∷ xs) (h, ps) = ps
remove_at-All P (suc i) (x ∷ xs) (h, ps) = (h, remove_at-All P i xs ps)

pub All-snoc :
    {A : Type 0} (P : A → Type 1) (xs : List A) (x : A) → All P xs → P x → All P (xs ++ x ∷ [])
All-snoc P [] x ps h = (h, tt)
All-snoc P (y ∷ xs) x (q, ps) h = (q, All-snoc P xs x ps h)

module _ (p : Parts) (gate : Gate p) (s : IdentityCore p) where
  open p use {lib}
  open lib use {World, Name, Signer}

  abbrev pub Turns : Type 1
  Turns = List (Turn p gate)

  -- The core after the turns, from `s` with nothing taken up.
  abbrev pub core_after : Turns → IdentityCore p
  core_after ts = (run p gate ts (idle p gate s)).core

  -- The turns are those of a moment, at which `P` held of those before, and others after it.
  pub record Once (P : Turns → Type 1) (ts : Turns) : Type 1 where
    pub before : Turns
    pub after : Turns
    pub split : ts ≡ before ++ after
    pub held : P before

  -- An Interest has come, as the last turn.
  pub record Comes (name : Name) (params : Option (List ℕ)) (ts : Turns) : Type 1 where
    pub earlier : Turns
    pub comes : ts ≡ earlier ++ arrives name params ∷ []

  abbrev pub Arrived : Name → Option (List ℕ) → Turns → Type 1
  Arrived name params = Once (Comes name params)

  -- An Interest has come whose parameters are the request.
  abbrev pub Requested : Name → SignRequest → Turns → Type 1
  Requested name req ts =
      (wire : List ℕ) × (p.decode_request wire ≡ inr req) × Arrived name (some wire) ts

  -- The policy approves of the request's region now, or the user does on seeing its summary.
  abbrev pub Allows : IdentityCore p → SignRequest → Type 0
  Allows c req =
      (p.decide c.sign_policy req.region (p.keys.clock c.world).0 ≡ auto_approve)
      ⊎ ((gate (signing_summary p req.region) c.world).0 ≡ true)

  -- The request had come, and was approved of.
  abbrev pub Approved : Name → SignRequest → Turns → Type 1
  Approved name req = Once (λ ts. Requested name req ts × Allows (core_after ts) req)

  -- The request had been approved of, and the signer was loaded.
  abbrev pub Signs : Name → SignRequest → Signer → Turns → Type 1
  Signs name req signer =
      Once (λ ts. Approved name req ts × ((core_after ts).identity ≡ some signer))

  -- What a reply says: a denial, or a signature over the request's region.
  abbrev pub Says : Turns → Name → SignRequest → List ℕ → Type 1
  Says ts name req content =
      (content ≡ p.encode_response (denied req.req_id))
      ⊎ ((signer : Signer) × Signs name req signer ts
          × (w : World) × (signature : List ℕ) × ((p.sign_region signer req.region w).0
              ≡ inr signature)
          × (content ≡ p.encode_response (approved req.req_id signature)))

  abbrev pub IsFounded : Turns → Name × List ℕ → Type 1
  IsFounded ts (name, content) =
      (req : SignRequest) × Requested name req ts × Says ts name req content

  abbrev pub IsArrived : Turns → Name × Option (List ℕ) → Type 1
  IsArrived ts (name, params) = Arrived name params ts

  abbrev pub IsPending : Turns → Name × Job p → Type 1
  IsPending ts (name, (req, o)) =
      Requested name req ts × ((signer : Signer) → o ≡ some signer → Signs name req signer ts)

  abbrev pub IsAt : Turns → Loop p gate → Type 1
  IsAt ts free = Unit
  IsAt ts (deciding name req d) = Requested name req ts × (d ≡ auto_approve → Approved name req ts)
  IsAt ts (judged name req allowed) =
      Requested name req ts × (allowed ≡ true → Approved name req ts)

  pub record Inv (ts : Turns) (r : Responder p gate) : Type 1 where
    pub reached : run p gate ts (idle p gate s) ≡ r
    pub waiting : All (IsArrived ts) r.inbox
    pub at : IsAt ts r.loop
    pub pending : All (IsPending ts) r.jobs
    pub founded : All (IsFounded ts) r.sent

  -- What has held once has held once later.
  abbrev pub later : (P : Turns → Type 1) (ts us : Turns) → Once P ts → Once P (ts ++ us)
  later P ts us o = record {
    before = o.before;
    after = o.after ++ us;
    split = ap (λ v. v ++ us) o.split ∙ append_assoc o.before o.after us;
    held = o.held;
  }

  abbrev pub now : (P : Turns → Type 1) (ts us : Turns) → P ts → Once P (ts ++ us)
  now P ts us h = record { before = ts; after = us; split = refl; held = h }

  abbrev pub later_requested :
      (ts us : Turns) (name : Name) (req : SignRequest)
      → Requested name req ts
      → Requested name req (ts ++ us)
  later_requested ts us name req (wire, d, a) = (wire, d, later _ ts us a)

  module _ (ts us : Turns) where
    pub later-IsArrived : (x : Name × Option (List ℕ)) → IsArrived ts x → IsArrived (ts ++ us) x
    later-IsArrived (name, params) = later _ ts us

    pub later-IsFounded : (x : Name × List ℕ) → IsFounded ts x → IsFounded (ts ++ us) x
    later-IsFounded (name, content) (req, a, inl q) = (req, later_requested ts us name req a, inl q)
    later-IsFounded (name, content) (req, a, inr (signer, o, w, signature, g, q)) =
        (req, later_requested ts us name req a, inr (signer, later _ ts us o, w, signature, g, q))

    pub later-IsPending : (x : Name × Job p) → IsPending ts x → IsPending (ts ++ us) x
    later-IsPending (name, (req, o)) (a, f) =
        (later_requested ts us name req a, λ signer q. later _ ts us (f signer q))

    pub later-IsAt : (l : Loop p gate) → IsAt ts l → IsAt (ts ++ us) l
    later-IsAt free a = tt
    later-IsAt (deciding name req d) (a, f) =
        (later_requested ts us name req a, λ q. later _ ts us (f q))
    later-IsAt (judged name req allowed) (a, f) =
        (later_requested ts us name req a, λ q. later _ ts us (f q))

  pub response-Says :
      (ts : Turns) (name : Name) (req : SignRequest) (signer : Signer) (w : World)
      (r : Text ⊎ List ℕ)
      → Signs name req signer ts
      → (p.sign_region signer req.region w).0 ≡ r
      → Says ts name req (p.encode_response (response_of p req.req_id r))
  unfolding response_of
  response-Says ts name req signer w (inl e) o q = inl refl
  response-Says ts name req signer w (inr signature) o q = inr (signer, o, w, signature, q, refl)

  pub reply-Says :
      (ts : Turns) (name : Name) (req : SignRequest) (o : Option Signer) (w : World)
      → ((signer : Signer) → o ≡ some signer → Signs name req signer ts)
      → Says ts name req (reply p (req, o) w).0
  unfolding reply
  reply-Says ts name req none w f = inl refl
  reply-Says ts name req (some signer) w f =
      response-Says ts name req signer w _ (f signer refl) refl

  -- The parts of the loop's turn.
  pub requested_lem :
      (ts : Turns) (name : Name) (wire : List ℕ) (x : Text ⊎ SignRequest) (req : SignRequest)
      → Arrived name (some wire) ts
      → p.decode_request wire ≡ x
      → as_request p x ≡ some req
      → Requested name req ts
  unfolding as_request
  requested_lem ts name wire (inl e) req a d q = absurd (cc)
  requested_lem ts name wire (inr r) req a d q = (wire, cc, a)

  pub params-Requested :
      (ts : Turns) (name : Name) (params : Option (List ℕ)) (req : SignRequest)
      → Arrived name params ts
      → requested p params ≡ some req
      → Requested name req ts
  unfolding requested
  params-Requested ts name none req a q = absurd (cc)
  params-Requested ts name (some wire) req a q = requested_lem ts name wire _ req a refl q

  pub snapshot-Signs :
      (allowed : Bool) (c : IdentityCore p) (signer : Signer)
      → snapshot p allowed c ≡ some signer
      → (allowed ≡ true) × (c.identity ≡ some signer)
  unfolding snapshot
  snapshot-Signs false c signer q = absurd (cc)
  snapshot-Signs true c signer q = (refl, q)

  -- What an answer of the user, or of the policy, stands for.
  pub by_decision-Allows :
      (c : IdentityCore p) (req : SignRequest) (d : Decision)
      → (by_decision p gate req.region d c.world).0 ≡ true
      → (d ≡ auto_approve) ⊎ Allows c req
  unfolding by_decision
  by_decision-Allows c req auto_approve q = inl refl
  by_decision-Allows c req prompt q = inr (inr q)
