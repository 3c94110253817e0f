-- ===== src/Engine/Producers.antt =====
-- Producers and subscribers of the engine object, each over a face of its own, and enrollment by a
-- PIN.
use ndn_mobile.Prelude.{ℕ, ◌+◌, Bool, true, Option, none, some, List, [], ◌∷◌, ◌⊎◌, inl, inr, ◌++◌}
use ndn_mobile.Text.{Text, codes}
use ndn_mobile.Text.Print.{decimal}
use ndn_mobile.Types.{NdnError, NdnSample, engine}
use ndn_mobile.Enroll.{EnrollConfig}
use ndn_mobile.Enroll.Identity.{EnrolledIdentity, enroll_pin}
use ndn_mobile.Enroll.Safebag.{to_safebag}
use ndn_mobile.Mobile.{MobileEngine}
use ndn_mobile.Mobile.Faces.{new_app_handle, register_prefix}
use ndn_mobile.Identity.{Act, ◌>>=◌, ◌>>◌, return, set_identity}
use ndn_mobile.Identity.Load.{NdnEnrollConfig, NdnEnrolledIdentity, config_of, enrolling, view}
use ndn_mobile.Identity.Objects
use ndn_mobile.Identity.Responder.{Gate}
use ndn_mobile.Identity.Serving
use ndn_mobile.Identity.Serving.{Turn}
use ndn_mobile.Engine.Calls.{is_shut_down, on_engine, alloc_app_handle}
use ndn_mobile.Engine.Object.{Host, NdnEngine, Sample, Call, on_core, on_running, parsed}

module _ (h : Host) where
  open h use {mobile, texts, p, publishing}
  open p use {lib, keys, bags}
  open lib use {Name, World}

  -- `register_producer`: a face of the app with a route to it.
  unfoldable pub register_producer : Name → MobileEngine mobile → ℕ × MobileEngine mobile
  register_producer name e =
      let (face, e) = new_app_handle mobile e in
      (face, register_prefix mobile (h.mobile_name name) face e)

  unfoldable pub register_producer_internal : Name → Call h ℕ
  register_producer_internal name = on_running h (λ r.
      on_engine mobile texts r.inner
        (λ e. let (face, e) = register_producer name e in (inr face, e)) r)

  -- `NdnInterestHandler`: what the host answers to a name.
  abbrev pub InterestHandler : Type 0
  InterestHandler = Text → World → Option (List ℕ) × World

  unfoldable pub closed : (Text ⊎ Unit {0}) → NdnError ⊎ Bool
  closed (inl error) = inl (engine error)
  closed (inr _) = inr true

  unfoldable pub producing :
      InterestHandler → (NdnError ⊎ ℕ) × NdnEngine h → (NdnError ⊎ Bool) × NdnEngine h
  producing handler (inl error, e) = (inl error, e)
  producing handler (inr face, e) =
      let (r, w) = h.serve_over face handler e.core.world in
      (closed r, record e { core = record e.core { world = w } })

  unfoldable pub serve : Text → InterestHandler → Call h Bool
  serve prefix handler =
      parsed h prefix (λ name e. producing handler (register_producer_internal name e))

  unfoldable pub publish_object : Text → List ℕ → ℕ → Call h Bool
  publish_object name content chunk_size =
      on_core h (Objects.publish_object p publishing name content chunk_size)

  -- With the replies that were sent, newest first.
  unfoldable pub serve_remote_signer :
      (gate : Gate p)
      → Text
      → List (Turn p gate)
      → (Text ⊎ Unit {0})
      → NdnEngine h
      → ((NdnError ⊎ Bool) × List (Name × List ℕ)) × NdnEngine h
  serve_remote_signer gate prefix turns closed e =
      let (a, r) = Serving.serve_remote_signer p gate prefix turns closed e.core in
      ((a, r.sent), record e { core = r.core })

  unfoldable pub from_sample : Sample p → NdnSample
  from_sample s = record {
    name = p.to_string s.name;
    publisher = s.publisher;
    seq = s.seq;
    payload = s.payload;
  }

  -- The host's handler gets the publications one by one.
  unfoldable pub on_samples : (NdnSample → World → World) → List (Sample p) → World → World
  on_samples handler [] w = w
  on_samples handler (s ∷ samples) w = on_samples handler samples (handler (from_sample s) w)

  unfoldable pub joined :
      (NdnSample → World → World)
      → (Text ⊎ List (Sample p)) × World
      → NdnEngine h
      → (NdnError ⊎ Bool) × NdnEngine h
  joined handler (inl error, w) e =
      (inl (engine error), record e { core = record e.core { world = w } })
  joined handler (inr samples, w) e =
      (inr true, record e { core = record e.core { world = on_samples handler samples w } })

  unfoldable pub subscribing :
      (NdnSample → World → World)
      → Name
      → ℕ
      → (NdnError ⊎ ℕ) × NdnEngine h
      → (NdnError ⊎ Bool) × NdnEngine h
  subscribing handler group pid (inl error, e) = (inl error, e)
  subscribing handler group pid (inr face, e) =
      joined handler
        (h.join_group face group (lib.append group (codes "node-" ++ decimal pid)) e.core.world) e

  unfoldable pub subscribe : Text → ℕ → (NdnSample → World → World) → Call h Bool
  subscribe group_prefix pid handler =
      parsed h group_prefix
        (λ group e. subscribing handler group pid (on_running h (alloc_app_handle mobile texts) e))

  -- `NdnPinHandler`: what the user enters for a request.
  abbrev pub PinHandler : Type 0
  PinHandler = Text → World → Text × World

  -- The bag is made before the identity is loaded; the certificate is not.
  unfoldable pub kept_under : List ℕ → EnrolledIdentity lib → Act p NdnEnrolledIdentity
  kept_under password enrolled = do
    bag ← enrolling p (to_safebag lib keys bags password enrolled)
    set_identity p enrolled.signer
    return p (view p enrolled (p.encode_bag bag))

  unfoldable pub by_pin :
      NdnEnrollConfig → EnrollConfig lib → PinHandler → Act p NdnEnrolledIdentity
  by_pin config cfg pin_handler = do
    enrolled ← enrolling p (enroll_pin lib keys cfg (λ req. pin_handler req.request_id))
    kept_under config.persist_password enrolled

  -- The app library's consumer for the exchange takes `allocs` face ids of the engine.
  unfoldable pub enrolled_by :
      ℕ
      → NdnEnrollConfig
      → PinHandler
      → Option (MobileEngine mobile)
      → (NdnError ⊎ EnrollConfig lib) × NdnEngine h
      → (NdnError ⊎ NdnEnrolledIdentity) × NdnEngine h
  enrolled_by allocs config pin_handler inner (inl error, e) = (inl error, e)
  enrolled_by allocs config pin_handler none (inr cfg, e) = (inl (is_shut_down mobile texts), e)
  enrolled_by allocs config pin_handler (some inner) (inr cfg, e) =
      on_core h (by_pin config cfg pin_handler) (record e {
        running = record e.running {
          inner = some (record inner { allocated = inner.allocated + allocs });
        };
      })

  unfoldable pub enroll : ℕ → NdnEnrollConfig → PinHandler → Call h NdnEnrolledIdentity
  enroll allocs config pin_handler e =
      enrolled_by allocs config pin_handler e.running.inner (on_core h (config_of p config) e)
