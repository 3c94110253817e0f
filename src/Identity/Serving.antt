-- ===== src/Identity/Serving.antt =====
-- The remote signer's responder over a run: the serve loop of `serve_remote_signer` in
-- crates/ndn-boltffi/src/identity_core.rs with the tasks that it spawns, in any order of their turns.
pub mod Founded
pub mod Provenance
use ndn_mobile.Prelude.{
  ℕ, zero, suc, Bool, true, Option, none, some, List, [], ◌∷◌, ◌⊎◌, ◌++◌, inl, inr, get_elem?,
}
use ndn_mobile.Text.{Text}
use ndn_mobile.Types.{NdnError, engine, invalid_name}
use ndn_mobile.Identity.{Parts, IdentityCore, Act, SignRequest, Decision}
use ndn_mobile.Identity.Responder.{Gate, Job, requested, decide, user_says, snapshot, reply}

unfoldable pub remove_at : {A : Type 0} → ℕ → List A → List A
remove_at i [] = []
remove_at zero (x ∷ xs) = xs
remove_at (suc i) (x ∷ xs) = x ∷ remove_at i xs

module _ (p : Parts) (gate : Gate p) where
  open p use {lib}
  open lib use {Name}

  -- Where the loop is with an Interest: it waits for one, or has what the policy says about a request
  -- and the user's answer is to come, or has the answer and the signer is to be looked up.
  pub data Loop : Type 0 where
    free : Loop
    deciding : Name → SignRequest → Decision → Loop
    judged : Name → SignRequest → (allowed : Bool) → Loop

  -- The Interests that wait, oldest first; the tasks that were spawned and are not done, and the
  -- replies that were sent, newest first, each with the name of its Interest.
  pub record Responder : Type 0 where
    pub core : IdentityCore p
    pub inbox : List (Name × Option (List ℕ))
    pub loop : Loop
    pub jobs : List (Name × Job p)
    pub sent : List (Name × List ℕ)

  -- An Interest comes with its parameters; the loop takes the next one, gets the user's answer, looks
  -- the signer up; a task ends; or another call of the core is made, between any two of these.
  pub data Turn : Type 1 where
    arrives : Name → Option (List ℕ) → Turn
    takes : Turn
    answers : Turn
    looks_up : Turn
    completes : ℕ → Turn
    calls : {A : Type 0} → Act p A → Turn

  unfoldable pub begin : Name → Option SignRequest → Responder → Responder
  begin name none r = r
  begin name (some req) r =
      let (d, s) = decide p req r.core in record r { core = s; loop = deciding name req d }

  unfoldable pub take_next : Loop → List (Name × Option (List ℕ)) → Responder → Responder
  take_next free [] r = r
  take_next free ((name, params) ∷ inbox) r =
      begin name (requested p params) (record r { inbox = inbox })
  take_next l inbox r = r

  unfoldable pub get_answer : Loop → Responder → Responder
  get_answer (deciding name req d) r =
      let (allowed, s) = user_says p gate req d r.core in
      record r { core = s; loop = judged name req allowed }
  get_answer l r = r

  unfoldable pub look_up : Loop → Responder → Responder
  look_up (judged name req allowed) r = record r {
    loop = free;
    jobs = (name, (req, snapshot p allowed r.core)) ∷ r.jobs;
  }
  look_up l r = r

  unfoldable pub complete : ℕ → Option (Name × Job p) → Responder → Responder
  complete i none r = r
  complete i (some (name, job)) r =
      let (content, w) = reply p job r.core.world in
      record r {
        core = record r.core { world = w };
        jobs = remove_at i r.jobs;
        sent = (name, content) ∷ r.sent;
      }

  unfoldable pub turn : Turn → Responder → Responder
  turn (arrives name params) r = record r { inbox = r.inbox ++ (name, params) ∷ [] }
  turn takes r = take_next r.loop r.inbox r
  turn answers r = get_answer r.loop r
  turn looks_up r = look_up r.loop r
  turn (completes i) r = complete i (get_elem? r.jobs i) r
  turn (calls m) r = record r { core = (m r.core).1 }

  unfoldable pub run : List Turn → Responder → Responder
  run [] r = r
  run (t ∷ ts) r = run ts (turn t r)

  unfoldable pub idle : IdentityCore p → Responder
  idle s = record { core = s; inbox = []; loop = free; jobs = []; sent = [] }

  unfoldable pub ended : Text ⊎ Unit {0} → NdnError ⊎ Bool
  ended (inl error) = inl (engine error)
  ended (inr _) = inr true

  -- `turns` are those until the connection ends as `closed` says.
  unfoldable pub serve_remote_signer :
      Text
      → (turns : List Turn) → (closed : Text ⊎ Unit {0}) → IdentityCore p
      → (NdnError ⊎ Bool) × Responder
  serve_remote_signer prefix turns closed s = elim (p.parse prefix) [
    | none ↦ (inl (invalid_name prefix), idle s)
    | some name ↦ (ended closed, run turns (idle s))
  ]
