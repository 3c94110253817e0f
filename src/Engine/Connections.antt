-- ===== src/Engine/Connections.antt =====
-- The connections of the engine object, whatever was called before: which face consumers run over,
-- which faces the other connections get, and what is left after a shutdown.
use ndn_mobile.Prelude.{
  ℕ, ◌≡◌, refl, ap, subst, arith, Bool, Option, none, some, List, ◌⊎◌, inl, inr,
}
use ndn_mobile.Text.{Text}
use ndn_mobile.Types.{NdnError}
use ndn_mobile.Mobile.{MobileEngine, alloc_id, emit}
use ndn_mobile.Mobile.Build.{Outcome}
use ndn_mobile.Mobile.Faces.{new_app_handle}
use ndn_mobile.Engine.{NdnEngineConfig, build_engine}
use ndn_mobile.Engine.Calls
use ndn_mobile.Engine.Calls.{Running, is_shut_down, on_engine, alloc_app_handle}
use ndn_mobile.Engine.Object
use ndn_mobile.Engine.Object.{Host, NdnEngine, new, on_running}
use ndn_mobile.Engine.Moves.{primary, Above, IsDown, IsReady, with_consumer-Given}
use ndn_mobile.Engine.Fetch.{Fetch, over, with_consumer}
use ndn_mobile.Engine.Radios.{attach_wifi_aware, nan_attached, attach_ble, ble_attached}
use ndn_mobile.Engine.Producers.{register_producer_internal}
use ndn_mobile.Engine.Run.{Event, shuts_down, step, after}
use ndn_mobile.Engine.Keeps.Run.{step-Keeps, after-Keeps}

module _ (h : Host) where
  open h use {mobile, texts, p}
  open p use {lib}

  abbrev pub app_face : ℕ
  app_face = primary mobile texts

  abbrev pub IsStarted : NdnEngine h → Type 0
  IsStarted e = IsReady mobile texts e.running × Above mobile texts 1 e.running.inner

  abbrev IsStartedIf : NdnError ⊎ NdnEngine h → Type 0
  IsStartedIf (inl error) = Unit
  IsStartedIf (inr e) = IsStarted e

  started_lem :
      (w : lib.World) (x : NdnError ⊎ MobileEngine mobile)
      → IsStartedIf (Object.started h w (Calls.started mobile texts x))
  unfolding Object.started Calls.started new_app_handle alloc_id emit
  started_lem w (inl error) = tt
  started_lem w (inr m) = (refl, omega arith)

  pub new-IsStarted :
      (out : Outcome mobile) (config : NdnEngineConfig) (w : lib.World) (e : NdnEngine h)
      → new h out config w ≡ inr e
      → IsStarted e
  unfolding new Calls.new
  new-IsStarted out config w e q =
      subst IsStartedIf q (started_lem w (build_engine mobile texts out config))

  over_lem :
      {A : Type 0} (on_start : NdnEngine h → NdnEngine h)
      → ((s : NdnEngine h) → (on_start s).core ≡ s.core)
      → (run : Fetch h A) (x : (NdnError ⊎ ℕ) × Running mobile texts) (e : NdnEngine h)
      → x.0 ≡ inr app_face
      → (over h on_start run x e).0 ≡ inr (run (h.consumer_over app_face) e.core.world).0.0
  unfolding over
  over_lem on_start keeps run (inl error, r) e q = absurd (cc)
  over_lem on_start keeps run (inr face, r) e q =
      let same : face ≡ app_face = cc in rw (same, keeps (record e { running = r })) refl

  -- Every consumer call of a running object goes out over the face that the engine was built with,
  -- whichever calls came before it, a shutdown among them: it is never refused, and its result is the
  -- app library's over that face.
  pub consumes_over_app_face :
      (out : Outcome mobile) (config : NdnEngineConfig) (w : lib.World) (e : NdnEngine h)
      (ks : List (Event h)) {A : Type 0} (on_start : NdnEngine h → NdnEngine h) (run : Fetch h A)
      → new h out config w ≡ inr e
      → ((s : NdnEngine h) → (on_start s).core ≡ s.core)
      → (with_consumer h on_start run (after h ks e)).0
        ≡ inr (run (h.consumer_over app_face) (after h ks e).core.world).0.0
  unfolding with_consumer
  consumes_over_app_face out config w e ks on_start run q keeps =
      let i = (new-IsStarted out config w e q).0 in
      let s = after h ks e in
      over_lem on_start keeps run (Calls.with_consumer mobile texts s.running) s
        (with_consumer-Given mobile texts s.running ((after-Keeps h ks e i).ready i)).0

  -- What is refused once the engine is down: producers, app handles, app descriptors and radios. The
  -- object is left as it is.
  pub record IsRefusing (s : NdnEngine h) : Type 0 where
    pub producers :
        (name : lib.Name)
        → register_producer_internal h name s ≡ (inl (is_shut_down mobile texts), s)
    pub handles :
        on_running h (alloc_app_handle mobile texts) s ≡ (inl (is_shut_down mobile texts), s)
    pub descriptors :
        (adopts : Bool) (error : Text) (fd : ℕ)
        → on_running h (Calls.mount_fd mobile texts adopts error fd) s
          ≡ (inl (is_shut_down mobile texts), s)
    pub nan :
        (service : Text) (backend : mobile.NanBackend)
        → attach_wifi_aware h service backend s ≡ (inl (is_shut_down mobile texts), s)
    pub ble :
        (backend : mobile.AdvBackend)
        → attach_ble h backend s ≡ (inl (is_shut_down mobile texts), s)

  refused :
      {A : Type 0} (o : Option (MobileEngine mobile))
      (f : MobileEngine mobile → (NdnError ⊎ A) × MobileEngine mobile) (r : Running mobile texts)
      → IsDown mobile texts o
      → on_engine mobile texts o f r ≡ (inl (is_shut_down mobile texts), r)
  unfolding on_engine
  refused none f r d = refl
  refused (some m) f r d = absurd d

  down-IsRefusing : (s : NdnEngine h) → IsDown mobile texts s.running.inner → IsRefusing s
  unfolding register_producer_internal on_running alloc_app_handle Calls.mount_fd attach_wifi_aware
      nan_attached Calls.attach_nan attach_ble ble_attached Calls.attach_adv
  down-IsRefusing s d = record {
    producers =
        λ name. ap (λ x. (x.0, record s { running = x.1 })) (refused s.running.inner _ s.running d);
    handles = ap (λ x. (x.0, record s { running = x.1 })) (refused s.running.inner _ s.running d);
    descriptors = λ adopts error fd.
        ap (λ x. (x.0, record s { running = x.1 })) (refused s.running.inner _ s.running d);
    nan = λ service backend.
        ap (λ x. nan_attached h service backend (x.0, record s { running = x.1 }))
          (refused s.running.inner _ s.running d);
    ble = λ backend.
        ap (λ x. ble_attached h (x.0, record s { running = x.1 }))
          (refused s.running.inner _ s.running d);
  }

  shut_down-IsDown : (e : NdnEngine h) → IsDown mobile texts (step h shuts_down e).running.inner
  unfolding step Calls.shutdown
  shut_down-IsDown e = tt

  -- A shutdown is final: after any calls, a shutdown and any more calls, no producer, app handle, app
  -- descriptor or radio is given; each is refused with the error of an engine that is shut down, and
  -- the object is left as it is.
  pub shutdown_is_final :
      (out : Outcome mobile) (config : NdnEngineConfig) (w : lib.World) (e : NdnEngine h)
      (before later : List (Event h))
      → new h out config w ≡ inr e
      → IsRefusing (after h later (step h shuts_down (after h before e)))
  shutdown_is_final out config w e before later q =
      let i = (new-IsStarted out config w e q).0 in
      let s = after h before e in
      let i' = (after-Keeps h before e i).ready i in
      let stopped = (step-Keeps h shuts_down s i').ready i' in
      down-IsRefusing _
        ((after-Keeps h later (step h shuts_down s) stopped).down (shut_down-IsDown s))
