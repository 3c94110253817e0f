-- ===== src/Engine/Consumers.antt =====
-- The face that each consumer call of the engine object runs over.
use ndn_mobile.Prelude.{
  ℕ, ◌≡◌, refl, subst, sym, All, Option, none, some, List, [], ◌∷◌, ◌++◌, ◌⊎◌, inl, inr,
}
use ndn_mobile.Types.{NdnError}
use ndn_mobile.Engine.Calls
use ndn_mobile.Engine.Calls.{Running, on_engine, alloc_app_handle}
use ndn_mobile.Engine.Object.{Host, NdnEngine}
use ndn_mobile.Engine.Moves.{IsReady, with_consumer-Given}
use ndn_mobile.Engine.Run.{
  Event, fetches, gets, fetches_object, fetches_verified, fetches_hinted, fetches_to_fd, step,
}
use ndn_mobile.Engine.Keeps.Run.{step-Keeps}
use ndn_mobile.Engine.Connections.{app_face}

module _ (h : Host) where
  open h use {mobile, texts, p}
  open p use {lib}

  -- The face that a step opens for a connection of its own, where it opens one.
  abbrev pub face_of : NdnError ⊎ ℕ → List ℕ
  face_of (inl error) = []
  face_of (inr face) = face ∷ []

  abbrev pub if_parsed : Option lib.Name → (lib.Name → List ℕ) → List ℕ
  if_parsed none f = []
  if_parsed (some name) f = f name

  -- The face that a step gives to a consumer, new or not.
  abbrev pub consumer_face : NdnEngine h → List ℕ
  consumer_face e = face_of (Calls.with_consumer mobile texts e.running).0

  abbrev pub consumed : Event h → NdnEngine h → List ℕ
  consumed (fetches name) e = if_parsed (p.parse name) (λ n. consumer_face e)
  consumed (gets name) e = if_parsed (p.parse name) (λ n. consumer_face e)
  consumed (fetches_object name) e = if_parsed (p.parse name) (λ n. consumer_face e)
  consumed (fetches_verified name) e = if_parsed (p.parse name) (λ n. consumer_face e)
  consumed (fetches_hinted name hint) e =
      if_parsed (p.parse name) (λ n. if_parsed (p.parse hint) (λ m. consumer_face e))
  consumed (fetches_to_fd name hint fd) e =
      if_parsed (p.parse name) (λ n. if_parsed (p.parse hint) (λ m. consumer_face e))
  consumed _ e = []

  abbrev pub all_consumed : List (Event h) → NdnEngine h → List ℕ
  all_consumed [] e = []
  all_consumed (k ∷ ks) e = consumed k e ++ all_consumed ks (step h k e)

  -- A consumer's face is the app face.
  given :
      (e : NdnEngine h)
      → IsReady mobile texts e.running
      → All (λ f. f ≡ app_face h) (consumer_face e)
  given e i =
      subst (λ x. All (λ f. f ≡ app_face h) (face_of x))
        (sym (with_consumer-Given mobile texts e.running i).0) (refl, tt)

  parsed-given :
      (o : Option lib.Name) (f : lib.Name → List ℕ)
      → ((name : lib.Name) → All (λ f. f ≡ app_face h) (f name))
      → All (λ f. f ≡ app_face h) (if_parsed o f)
  parsed-given none f g = tt
  parsed-given (some name) f g = g name

  step-given :
      (k : Event h) (e : NdnEngine h)
      → IsReady mobile texts e.running
      → All (λ f. f ≡ app_face h) (consumed k e)
  step-given (fetches name) e i = parsed-given (p.parse name) _ (λ n. given e i)
  step-given (gets name) e i = parsed-given (p.parse name) _ (λ n. given e i)
  step-given (fetches_object name) e i = parsed-given (p.parse name) _ (λ n. given e i)
  step-given (fetches_verified name) e i = parsed-given (p.parse name) _ (λ n. given e i)
  step-given (fetches_hinted name hint) e i =
      parsed-given (p.parse name) _ (λ n. parsed-given (p.parse hint) _ (λ m. given e i))
  step-given (fetches_to_fd name hint fd) e i =
      parsed-given (p.parse name) _ (λ n. parsed-given (p.parse hint) _ (λ m. given e i))
  step-given k e i = tt

  All-append : (P : ℕ → Type 0) (xs ys : List ℕ) → All P xs → All P ys → All P (xs ++ ys)
  All-append P [] ys ps qs = qs
  All-append P (x ∷ xs) ys (a, ps) qs = (a, All-append P xs ys ps qs)

  pub all-given :
      (ks : List (Event h)) (e : NdnEngine h)
      → IsReady mobile texts e.running
      → All (λ f. f ≡ app_face h) (all_consumed ks e)
  all-given [] e i = tt
  all-given (k ∷ ks) e i =
      All-append _ (consumed k e) _ (step-given k e i)
        (all-given ks (step h k e) ((step-Keeps h k e i).ready i))
