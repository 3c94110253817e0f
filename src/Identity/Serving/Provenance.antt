-- ===== src/Identity/Serving/Provenance.antt =====
-- What the remote signer's responder sends over a run, and what each reply goes back to.
use ndn_mobile.Prelude.{
  ℕ, ◌≡◌, refl, sym, ap, ◌∙◌, subst, All, Option, none, some, List, [], ◌∷◌, ◌++◌, ◌⊎◌, inl, inr,
  get_elem?, append-nil, append_assoc, Option-cases, All-get_elem?, All_weaken,
}
use ndn_mobile.Text.{Text}
use ndn_mobile.Identity.{Parts, IdentityCore, SignRequest}
use ndn_mobile.Identity.Responder.{Gate, Job, requested, decide, user_says}
use ndn_mobile.Identity.Serving.{
  Loop, free, deciding, judged, Responder, Turn, arrives, takes, answers, looks_up, completes,
  calls, begin, take_next, get_answer, look_up, complete, turn, run, idle, serve_remote_signer,
}
use ndn_mobile.Identity.Serving.Founded.{
  remove_at-All, All-snoc, later-IsArrived, later-IsFounded, later-IsPending, later-IsAt, Turns,
  core_after, Requested, Allows, IsFounded, IsArrived, IsPending, IsAt, Inv, later, now,
  later_requested, reply-Says, params-Requested, snapshot-Signs, by_decision-Allows,
}

module _ (p : Parts) (gate : Gate p) (s : IdentityCore p) where
  open p use {lib}
  open lib use {World, Name, Signer}

  run-append :
      (ts us : Turns p gate s) (r : Responder p gate)
      → run p gate (ts ++ us) r ≡ run p gate us (run p gate ts r)
  unfolding run
  run-append [] us r = refl
  run-append (t ∷ ts) us r = run-append ts us (turn p gate t r)

  reached-turn :
      (ts : Turns p gate s) (t : Turn p gate) (r : Responder p gate)
      → run p gate ts (idle p gate s) ≡ r
      → run p gate (ts ++ t ∷ []) (idle p gate s) ≡ turn p gate t r
  unfolding run
  reached-turn ts t r q = run-append ts (t ∷ []) (idle p gate s) ∙ ap (turn p gate t) q

  -- A responder after `ts`, with the state that a turn leaves behind.
  record Step (ts : Turns p gate s) (t : Turn p gate) (r : Responder p gate) : Type 1 where
    waiting : All (IsArrived p gate s (ts ++ t ∷ [])) r.inbox
    at : IsAt p gate s (ts ++ t ∷ []) r.loop
    pending : All (IsPending p gate s (ts ++ t ∷ [])) r.jobs
    founded : All (IsFounded p gate s (ts ++ t ∷ [])) r.sent

  stays :
      (ts : Turns p gate s) (t : Turn p gate) (r : Responder p gate)
      → Inv p gate s ts r
      → Step ts t r
  stays ts t r inv = record {
    waiting = All_weaken _ _ r.inbox (later-IsArrived p gate s ts _) inv.waiting;
    at = later-IsAt p gate s ts _ r.loop inv.at;
    pending = All_weaken _ _ r.jobs (later-IsPending p gate s ts _) inv.pending;
    founded = All_weaken _ _ r.sent (later-IsFounded p gate s ts _) inv.founded;
  }

  begin-Step :
      (ts : Turns p gate s) (name : Name) (o : Option SignRequest) (r : Responder p gate)
      → core_after p gate s ts ≡ r.core
      → ((req : SignRequest) → o ≡ some req → Requested p gate s name req ts)
      → Step ts takes r
      → Step ts takes (begin p gate name o r)
  unfolding begin decide
  begin-Step ts name none r q f st = st
  begin-Step ts name (some req) r q f st = record {
    waiting = st.waiting;
    at = (
      later_requested p gate s ts _ name req (f req refl),
      λ auto.
          now p gate s _ ts _ (f req refl, subst (λ c. Allows p gate s c req) (sym q) (inl auto)),
    );
    pending = st.pending;
    founded = st.founded;
  }

  take_next-Step :
      (ts : Turns p gate s) (l : Loop p gate) (inbox : List (Name × Option (List ℕ)))
      (r : Responder p gate)
      → r.inbox ≡ inbox
      → Inv p gate s ts r
      → Step ts takes (take_next p gate l inbox r)
  unfolding take_next
  take_next-Step ts free [] r q inv = stays ts takes r inv
  take_next-Step ts free ((name, params) ∷ inbox) r q inv =
      let st = stays ts takes r inv in
      let came = subst (All (IsArrived p gate s ts)) q inv.waiting in
      begin-Step ts name (requested p params) (record r { inbox = inbox })
        (ap (λ x. x.core) inv.reached)
        (λ req e. params-Requested p gate s ts name params req came.0 e)
        (record {
          waiting = (subst (All (IsArrived p gate s (ts ++ takes ∷ []))) q st.waiting).1;
          at = st.at;
          pending = st.pending;
          founded = st.founded;
        })
  take_next-Step ts l inbox r q inv = stays ts takes r inv

  get_answer-Step :
      (ts : Turns p gate s) (l : Loop p gate) (r : Responder p gate)
      → r.loop ≡ l
      → Inv p gate s ts r
      → Step ts answers (get_answer p gate l r)
  unfolding get_answer user_says
  get_answer-Step ts (deciding name req d) r q inv =
      let (a, f) = subst (IsAt p gate s ts) q inv.at in
      let st = stays ts answers r inv in
      record {
        waiting = st.waiting;
        at = (
          later_requested p gate s ts _ name req a,
          λ yes. elim (by_decision-Allows p gate s r.core req d yes) [
            | inl auto ↦ later p gate s _ ts _ (f auto)
            | inr allows ↦
                now p gate s _ ts _ (
                  a,
                  subst (λ c. Allows p gate s c req) (sym (ap (λ x. x.core) inv.reached)) allows,
                )
          ],
        );
        pending = st.pending;
        founded = st.founded;
      }
  get_answer-Step ts l r q inv = stays ts answers r inv

  look_up-Step :
      (ts : Turns p gate s) (l : Loop p gate) (r : Responder p gate)
      → r.loop ≡ l
      → Inv p gate s ts r
      → Step ts looks_up (look_up p gate l r)
  unfolding look_up
  look_up-Step ts (judged name req allowed) r q inv =
      let (a, f) = subst (IsAt p gate s ts) q inv.at in
      let st = stays ts looks_up r inv in
      record {
        waiting = st.waiting;
        at = tt;
        pending = (
          (
            later_requested p gate s ts _ name req a,
            λ signer o.
                let (ok, i) = snapshot-Signs p gate s allowed r.core signer o in
                now p gate s _ ts _ (f ok, ap (λ x. x.core.identity) inv.reached ∙ i),
          ),
          st.pending,
        );
        founded = st.founded;
      }
  look_up-Step ts l r q inv = stays ts looks_up r inv

  complete-Step :
      (ts : Turns p gate s) (i : ℕ) (o : Option (Name × Job p)) (r : Responder p gate)
      → get_elem? r.jobs i ≡ o
      → Inv p gate s ts r
      → Step ts (completes i) (complete p gate i o r)
  unfolding complete
  complete-Step ts i none r q inv = stays ts (completes i) r inv
  complete-Step ts i (some (name, (req, o))) r q inv =
      let st = stays ts (completes i) r inv in
      let (a, f) =
        All-get_elem? (IsPending p gate s (ts ++ _)) r.jobs i (name, (req, o)) q st.pending in
      record {
        waiting = st.waiting;
        at = st.at;
        pending = remove_at-All (IsPending p gate s (ts ++ _)) i r.jobs st.pending;
        founded = ((req, a, reply-Says p gate s (ts ++ _) name req o r.core.world f), st.founded);
      }

  turn-Step :
      (ts : Turns p gate s) (t : Turn p gate) (r : Responder p gate)
      → Inv p gate s ts r
      → Step ts t (turn p gate t r)
  unfolding turn
  turn-Step ts (arrives name params) r inv =
      let st = stays ts (arrives name params) r inv in
      record {
        waiting =
            All-snoc _ r.inbox (name, params) st.waiting
              (record {
                before = ts ++ arrives name params ∷ [];
                after = [];
                split = sym (append-nil _);
                held = record { earlier = ts; comes = refl };
              });
        at = st.at;
        pending = st.pending;
        founded = st.founded;
      }
  turn-Step ts takes r inv = take_next-Step ts r.loop r.inbox r refl inv
  turn-Step ts answers r inv = get_answer-Step ts r.loop r refl inv
  turn-Step ts looks_up r inv = look_up-Step ts r.loop r refl inv
  turn-Step ts (completes i) r inv = complete-Step ts i _ r refl inv
  turn-Step ts (calls m) r inv =
      let st = stays ts (calls m) r inv in
      record { waiting = st.waiting; at = st.at; pending = st.pending; founded = st.founded }

  run-Inv :
      (ts us : Turns p gate s) (r : Responder p gate)
      → Inv p gate s ts r
      → Inv p gate s (ts ++ us) (run p gate us r)
  unfolding run
  run-Inv ts [] r inv = subst (λ v. Inv p gate s v r) (sym (append-nil ts)) inv
  run-Inv ts (t ∷ us) r inv =
      let st = turn-Step ts t r inv in
      subst (λ v. Inv p gate s v (run p gate us (turn p gate t r))) (append_assoc ts (t ∷ []) us)
        (run-Inv (ts ++ t ∷ []) us (turn p gate t r) (record {
          reached = reached-turn ts t r inv.reached;
          waiting = st.waiting;
          at = st.at;
          pending = st.pending;
          founded = st.founded;
        }))

  run-IsFounded :
      (ts : Turns p gate s) → All (IsFounded p gate s ts) (run p gate ts (idle p gate s)).sent
  unfolding run idle
  run-IsFounded ts =
      let inv =
        run-Inv [] ts (idle p gate s)
          (record { reached = refl; waiting = tt; at = tt; pending = tt; founded = tt }) in
      inv.founded

  -- However Interests come, the loop and its tasks make their turns and other calls come between any
  -- two of them, every reply that the responder sends goes to the name of an Interest whose parameters
  -- were a request. It denies that request; or it has a signature over its region by a signer that
  -- was loaded at a moment before which the policy or the user had approved of the request, and that
  -- approval came after the Interest.
  pub serve_remote_signer-IsFounded :
      (prefix : Text) (ts : Turns p gate s) (closed : Text ⊎ Unit {0})
      → All (IsFounded p gate s ts) (serve_remote_signer p gate prefix ts closed s).1.sent
  unfolding serve_remote_signer idle
  serve_remote_signer-IsFounded prefix ts closed = elim (Option-cases (p.parse prefix)) [
    | inl q ↦ rw (q, serve_remote_signer) tt
    | inr (name, q) ↦ rw (q, serve_remote_signer) (run-IsFounded ts)
  ]
