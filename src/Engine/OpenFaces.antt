-- ===== src/Engine/OpenFaces.antt =====
-- The faces of the connections that the engine object opens: no two share one.
use ndn_mobile.Prelude.{
  ℕ, zero, suc, ◌+◌, ◌≤◌, ◌≡◌, ◌≢◌, refl, ap, ◌∙◌, subst, sym, arith, All, Option, none, some, List,
  [], ◌∷◌, ◌++◌, ◌⊎◌, inl, inr, Option-cases,
}
use ndn_mobile.Types.{NdnError}
use ndn_mobile.Enroll.{EnrollConfig}
use ndn_mobile.Identity.Load.{NdnEnrollConfig, config_of}
use ndn_mobile.Mobile.{MobileEngine, alloc_id, emit}
use ndn_mobile.Mobile.Build.{Outcome}
use ndn_mobile.Mobile.Faces.{new_app_handle, register_prefix}
use ndn_mobile.Engine.{NdnEngineConfig}
use ndn_mobile.Engine.Calls.{Running, on_engine, alloc_app_handle}
use ndn_mobile.Engine.Object.{Host, NdnEngine, new, on_core, on_running, parsed}
use ndn_mobile.Engine.Moves.{Above, IsReady}
use ndn_mobile.Engine.Producers.{
  register_producer, register_producer_internal, serve, subscribe, PinHandler, enrolled_by, enroll,
}
use ndn_mobile.Engine.Run.{Event, serves, subscribes, enrolls, step}
use ndn_mobile.Engine.Keeps.{producing_lem, subscribing_lem}
use ndn_mobile.Engine.Keeps.Run.{step-Keeps}
use ndn_mobile.Engine.Connections.{app_face, new-IsStarted}
use ndn_mobile.Engine.Consumers.{face_of, if_parsed, all_consumed, all-given}

module _ (h : Host) where
  open h use {mobile, texts, p}
  open p use {lib}

  -- The next `k` faces from id `n` on.
  abbrev pub next_faces : (n k : ℕ) → List ℕ
  next_faces n zero = []
  next_faces n (suc k) = mobile.face_id n ∷ next_faces (suc n) k

  -- The faces of the consumer that an enrollment by PIN has for itself, if it comes to that.
  abbrev pub exchange_faces :
      {A : Type 0} → ℕ → Option (MobileEngine mobile) → NdnError ⊎ A → List ℕ
  exchange_faces allocs inner (inl error) = []
  exchange_faces allocs none (inr cfg) = []
  exchange_faces allocs (some inner) (inr cfg) = next_faces inner.allocated allocs

  abbrev pub opened : Event h → NdnEngine h → List ℕ
  opened (serves prefix handler) e =
      if_parsed h (p.parse prefix) (λ name. face_of h (register_producer_internal h name e).0)
  opened (subscribes group pid handler) e =
      if_parsed h (p.parse group) (λ name. face_of h (alloc_app_handle mobile texts e.running).0)
  opened (enrolls allocs config pin_handler) e =
      exchange_faces allocs e.running.inner (on_core h (config_of p config) e).0
  opened _ e = []

  abbrev pub all_opened : List (Event h) → NdnEngine h → List ℕ
  all_opened [] e = []
  all_opened (k ∷ ks) e = opened k e ++ all_opened ks (step h k e)

  -- The ids of rising allocations, from one on.
  abbrev Rising : ℕ → List ℕ → Type 0
  Rising lo [] = Unit
  Rising lo (f ∷ fs) = (n : ℕ) × (lo ≤ n) × (f ≡ mobile.face_id n) × Rising (suc n) fs

  abbrev pub IsDistinct : List ℕ → Type 0
  IsDistinct [] = Unit
  IsDistinct (f ∷ fs) = All (λ g. f ≢ g) fs × IsDistinct fs

  module _ (injective : (m n : ℕ) → mobile.face_id m ≡ mobile.face_id n → m ≡ n) where
    above-All :
        (n lo : ℕ) (fs : List ℕ) → suc n ≤ lo → Rising lo fs → All (λ g. mobile.face_id n ≢ g) fs
    above-All n lo [] l r = tt
    above-All n lo (f ∷ fs) l (m, b, q, r) =
        (λ e. absurd (omega (arith, injective n m (e ∙ q))), above-All n (suc m) fs (omega arith) r)

    Rising-IsDistinct : (lo : ℕ) (fs : List ℕ) → Rising lo fs → IsDistinct fs
    Rising-IsDistinct lo [] r = tt
    Rising-IsDistinct lo (f ∷ fs) (n, b, q, r) = (
      subst (λ f. All (λ g. f ≢ g) fs) (sym q) (above-All n (suc n) fs (omega arith) r),
      Rising-IsDistinct (suc n) fs r,
    )

  -- Where a call on the mobile engine opens the next face, those that follow go on rising.
  opens :
      (o : Option (MobileEngine mobile))
      (f : MobileEngine mobile → (NdnError ⊎ ℕ) × MobileEngine mobile) (r : Running mobile texts)
      → r.inner ≡ o
      → ((m : MobileEngine mobile) → (f m).0 ≡ inr (mobile.face_id m.allocated))
      → ((m : MobileEngine mobile) → suc m.allocated ≤ (f m).1.allocated)
      → (lo : ℕ) (fs : List ℕ) → Above mobile texts lo o
      → ((n : ℕ) → Above mobile texts n (on_engine mobile texts o f r).1.inner → Rising n fs)
      → Rising lo (face_of h (on_engine mobile texts o f r).0 ++ fs)
  unfolding on_engine
  opens none f r q fresh grows lo fs a rest = rest lo (subst (Above mobile texts lo) (sym q) tt)
  opens (some m) f r q fresh grows lo fs a rest =
      subst (λ x. Rising lo (face_of h x ++ fs)) (sym (fresh m))
        (m.allocated, a, refl, rest (suc m.allocated) (grows m))

  parsed-some :
      {A : Type 0} (text : _) (k : lib.Name → NdnEngine h → (NdnError ⊎ A) × NdnEngine h)
      (name : lib.Name) (e : NdnEngine h)
      → p.parse text ≡ some name
      → parsed h text k e ≡ k name e
  unfolding parsed
  parsed-some text k name e q = rw (q, parsed) refl

  serve_running :
      (prefix : _) (handler : _) (name : lib.Name) (e : NdnEngine h)
      → p.parse prefix ≡ some name
      → (step h (serves prefix handler) e).running ≡ (register_producer_internal h name e).1.running
  unfolding step serve
  serve_running prefix handler name e q =
      ap (λ x. x.1.running) (parsed-some prefix _ name e q)
      ∙ producing_lem h handler (register_producer_internal h name e)

  subscribe_running :
      (group : _) (pid : ℕ) (handler : _) (name : lib.Name) (e : NdnEngine h)
      → p.parse group ≡ some name
      → (step h (subscribes group pid handler) e).running
        ≡ (alloc_app_handle mobile texts e.running).1
  unfolding step subscribe on_running
  subscribe_running group pid handler name e q =
      ap (λ x. x.1.running) (parsed-some group _ name e q)
      ∙ subscribing_lem h handler name pid (on_running h (alloc_app_handle mobile texts) e)

  serve-opens :
      (name : lib.Name) (e : NdnEngine h) (lo : ℕ) (fs : List ℕ)
      → Above mobile texts lo e.running.inner
      → ((n : ℕ)
          → Above mobile texts n (register_producer_internal h name e).1.running.inner
          → Rising n fs)
      → Rising lo (face_of h (register_producer_internal h name e).0 ++ fs)
  unfolding register_producer_internal on_running register_producer register_prefix new_app_handle
      alloc_id emit
  serve-opens name e lo fs a rest =
      opens e.running.inner _ e.running refl (λ m. refl) (λ m. omega arith) lo fs a rest

  subscribe-opens :
      (e : NdnEngine h) (lo : ℕ) (fs : List ℕ)
      → Above mobile texts lo e.running.inner
      → ((n : ℕ)
          → Above mobile texts n (alloc_app_handle mobile texts e.running).1.inner
          → Rising n fs)
      → Rising lo (face_of h (alloc_app_handle mobile texts e.running).0 ++ fs)
  unfolding alloc_app_handle new_app_handle alloc_id emit
  subscribe-opens e lo fs a rest =
      opens e.running.inner _ e.running refl (λ m. refl) (λ m. omega arith) lo fs a rest

  next_faces-Rising :
      (k n lo : ℕ) (fs : List ℕ)
      → lo ≤ n
      → ((m : ℕ) → m ≤ n + k → Rising m fs)
      → Rising lo (next_faces n k ++ fs)
  next_faces-Rising zero n lo fs l rest = rest lo (omega arith)
  next_faces-Rising (suc k) n lo fs l rest = (
    n,
    l,
    refl,
    next_faces-Rising k (suc n) (suc n) fs (omega arith) (λ m b. rest m (omega arith)),
  )

  enroll-opens :
      (allocs : ℕ) (config : NdnEnrollConfig) (pin_handler : PinHandler h)
      (inner : Option (MobileEngine mobile)) (x : (NdnError ⊎ EnrollConfig lib) × NdnEngine h)
      (lo : ℕ) (fs : List ℕ)
      → x.1.running.inner ≡ inner
      → Above mobile texts lo inner
      → ((n : ℕ)
          → Above mobile texts n (enrolled_by h allocs config pin_handler inner x).1.running.inner
          → Rising n fs)
      → Rising lo (exchange_faces allocs inner x.0 ++ fs)
  unfolding enrolled_by on_core
  enroll-opens allocs config pin_handler inner (inl error, e) lo fs q a rest =
      rest lo (subst (Above mobile texts lo) (sym q) a)
  enroll-opens allocs config pin_handler none (inr cfg, e) lo fs q a rest =
      rest lo (subst (Above mobile texts lo) (sym q) a)
  enroll-opens allocs config pin_handler (some inner) (inr cfg, e) lo fs q a rest =
      next_faces-Rising allocs inner.allocated lo fs a rest

  module _ (k : Event h) (e : NdnEngine h) (i : IsReady mobile texts e.running) where
    -- The faces opened after a step rise from where the step leaves the engine.
    abbrev Later : List ℕ → Type 0
    Later fs = (n : ℕ) → Above mobile texts n (step h k e).running.inner → Rising n fs

    quiet : (lo : ℕ) (fs : List ℕ) → Above mobile texts lo e.running.inner → Later fs → Rising lo fs
    quiet lo fs a rest = rest lo ((step-Keeps h k e i).above lo a)

  step-opens :
      (k : Event h) (e : NdnEngine h) (i : IsReady mobile texts e.running) (lo : ℕ) (fs : List ℕ)
      → Above mobile texts lo e.running.inner
      → Later k e i fs
      → Rising lo (opened k e ++ fs)
  step-opens (serves prefix handler) e i lo fs a rest = elim (Option-cases (p.parse prefix)) [
    | inl q ↦ rw q (quiet (serves prefix handler) e i lo fs a rest)
    | inr (name, q) ↦ rw q (
        serve-opens name e lo fs a (λ n b. rest n (
          subst (λ (r : Running mobile texts). Above mobile texts n r.inner)
            (sym (serve_running prefix handler name e q)) b)))
  ]
  step-opens (subscribes group pid handler) e i lo fs a rest = elim (Option-cases (p.parse group)) [
    | inl q ↦ rw q (quiet (subscribes group pid handler) e i lo fs a rest)
    | inr (name, q) ↦ rw q (
        subscribe-opens e lo fs a (λ n b. rest n (
          subst (λ (r : Running mobile texts). Above mobile texts n r.inner)
            (sym (subscribe_running group pid handler name e q)) b)))
  ]
  step-opens (enrolls allocs config pin_handler) e i lo fs a rest =
      unfold step enroll on_core in
      enroll-opens allocs config pin_handler e.running.inner (on_core h (config_of p config) e) lo
        fs refl a rest
  step-opens k e i lo fs a rest = quiet k e i lo fs a rest

  all-Rising :
      (ks : List (Event h)) (e : NdnEngine h) (lo : ℕ)
      → IsReady mobile texts e.running
      → Above mobile texts lo e.running.inner
      → Rising lo (all_opened ks e)
  all-Rising [] e lo i a = tt
  all-Rising (k ∷ ks) e lo i a =
      step-opens k e i lo _ a (λ n b. all-Rising ks (step h k e) n ((step-Keeps h k e i).ready i) b)

  -- Where the forwarder gives no face id twice: whatever the calls, consumer calls all get the face
  -- that the engine was built with, and the faces that producers, subscribers and the consumers of
  -- enrollments by PIN open are all different, and none is that face.
  pub opened-IsDistinct :
      (out : Outcome mobile) (config : NdnEngineConfig) (w : lib.World) (e : NdnEngine h)
      (ks : List (Event h))
      → new h out config w ≡ inr e
      → ((m n : ℕ) → mobile.face_id m ≡ mobile.face_id n → m ≡ n)
      → All (λ f. f ≡ app_face h) (all_consumed h ks e) × IsDistinct (app_face h ∷ all_opened ks e)
  opened-IsDistinct out config w e ks q injective =
      let (i, a) = new-IsStarted h out config w e q in
      (
        all-given h ks e i,
        Rising-IsDistinct injective 0 (app_face h ∷ all_opened ks e)
            (0, omega arith, refl, all-Rising ks e 1 i a),
      )
