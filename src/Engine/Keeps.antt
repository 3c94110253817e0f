-- ===== src/Engine/Keeps.antt =====
-- What the parts of the engine object's calls keep of its mobile engine and connections.
pub mod Run
use ndn_mobile.Prelude.{
  ℕ, ◌≡◌, refl, ap, ◌∙◌, subst, sym, arith, Bool, Option, none, some, List, [], ◌∷◌, ◌⊎◌, inl, inr,
  Option-cases,
}
use ndn_mobile.Text.{Text}
use ndn_mobile.Types.{NdnError, AppError}
use ndn_mobile.Mobile.{MobileEngine}
use ndn_mobile.Mobile.Faces.{new_app_handle}
use ndn_mobile.Mobile.Routes.{note_peer_route}
use ndn_mobile.Mobile.Allocation.{
  Grows, new_app_handle-Grows, register_prefix-Grows, note_peer_route-Grows,
  attach_infra_tunnel_fd-Grows,
}
use ndn_mobile.Engine.Calls
use ndn_mobile.Engine.Calls.{Running}
use ndn_mobile.Engine.Object.{Host, NdnEngine, Call, on_core, on_running, parsed}
use ndn_mobile.Engine.Moves.{
  IsReady, Moves, stays, both, grown-Moves, on_engine-Moves, if_running-Moves, suspend-Moves,
  resume-Moves, shutdown-Moves, alloc_app_handle-Moves, with_consumer-Moves, mount_fd-Moves,
  attach_ndp-Moves, attach_direct-Moves, attach_direct_multicast-Moves, detach-Moves,
  attach_nan-Moves, attach_adv-Moves, declare_region-Moves,
}
use ndn_mobile.Engine.Fetch.{
  Fetch, store_progress, over, with_consumer, finished, at_once, reset_progress, fetch, get,
  fetch_object, fetch_object_verified, fetch_object_verified_hinted, fetch_object_to_fd,
}
use ndn_mobile.Engine.Radios.{
  attach_wifi_aware, nan_attached, attach_ble, ble_attached, nan_deliver_followup, nan_on_match,
  ble_deliver_frame, raise_tunnel, note_route,
}
use ndn_mobile.Engine.Serving.{
  start_discovery, start_board, opened, placed, add_offer, added, remove_offer, removed,
  register_object_relay, signed_by, relayed,
}
use ndn_mobile.Engine.Producers.{
  register_producer, register_producer_internal, serve, producing, subscribe, subscribing, joined,
  enroll, enrolled_by,
}
use ndn_mobile.Engine.Run.{
  Event, suspends, resumes, shuts_down, fetches, gets, fetches_object, fetches_verified,
  fetches_hinted, fetches_to_fd, asks_core, attaches_nan, hears_followup, hears_match, attaches_ble,
  hears_frame, notes_peer, discovers, starts_board, adds_offer, removes_offer, relays_object,
  serves, subscribes, enrolls, mounts_fd, attaches_ndp, attaches_direct, attaches_group, detaches,
  step, after,
}

module _ (h : Host) where
  open h use {mobile, texts, p}
  open p use {lib}

  -- Where the consumers' connection is or will be the app's face.
  abbrev pub Keeps : NdnEngine h → NdnEngine h → Type 0
  Keeps e e' = IsReady mobile texts e.running → Moves mobile texts e.running e'.running

  on_running-Keeps :
      {A : Type 0} (m : Running mobile texts → (NdnError ⊎ A) × Running mobile texts)
      (e : NdnEngine h)
      → Moves mobile texts e.running (m e.running).1
      → Keeps e (on_running h m e).1
  unfolding on_running
  on_running-Keeps m e k i = k

  pub parsed-Keeps :
      {A : Type 0} (text : Text) (k : lib.Name → Call h A) (e : NdnEngine h)
      → ((name : lib.Name) → Keeps e (k name e).1)
      → Keeps e (parsed h text k e).1
  unfolding parsed
  parsed-Keeps text k e keeps = elim (Option-cases (p.parse text)) [
    | inl q ↦ rw (q, parsed) (λ i. stays mobile texts e.running)
    | inr (name, q) ↦ rw (q, parsed) (keeps name)
  ]

  store_progress_lem :
      (reports : List (ℕ × ℕ)) (e : NdnEngine h) → (store_progress h reports e).running ≡ e.running
  unfolding store_progress
  store_progress_lem [] e = refl
  store_progress_lem (r ∷ reports) e = store_progress_lem reports _

  over_running :
      {A : Type 0} (on_start : NdnEngine h → NdnEngine h)
      → ((s : NdnEngine h) → (on_start s).running ≡ s.running)
      → (run : Fetch h A) (x : (NdnError ⊎ ℕ) × Running mobile texts) (e : NdnEngine h)
      → (over h on_start run x e).1.running ≡ x.1
  unfolding over
  over_running on_start keeps run (inl error, r) e = refl
  over_running on_start keeps run (inr face, r) e =
      store_progress_lem _ _ ∙ keeps (record e { running = r })

  finished_lem :
      {A : Type 0} (name : Text) (x : (NdnError ⊎ (AppError ⊎ A)) × NdnEngine h)
      → (finished h name x).1 ≡ x.1
  unfolding finished
  finished_lem name (inl error, e) = refl
  finished_lem name (inr result, e) = refl

  pub consuming-Keeps :
      {A : Type 0} (on_start : NdnEngine h → NdnEngine h)
      → ((s : NdnEngine h) → (on_start s).running ≡ s.running)
      → (run : Fetch h A) (name : Text) (e : NdnEngine h)
      → Keeps e (finished h name (with_consumer h on_start run e)).1
  unfolding with_consumer
  consuming-Keeps on_start keeps run name e i =
      subst (Moves mobile texts e.running)
        (sym (
          ap (λ (s : NdnEngine h). s.running) (finished_lem name _)
          ∙ over_running on_start keeps run (Calls.with_consumer mobile texts e.running) e))
        (with_consumer-Moves mobile texts e.running i)

  pub nan_attached_lem :
      (service : Text) (backend : mobile.NanBackend) (x : (NdnError ⊎ Bool) × NdnEngine h)
      → (nan_attached h service backend x).1.running ≡ x.1.running
  unfolding nan_attached
  nan_attached_lem service backend (inl error, e) = refl
  nan_attached_lem service backend (inr a, e) = refl

  pub ble_attached_lem :
      (x : (NdnError ⊎ Bool) × NdnEngine h) → (ble_attached h x).1.running ≡ x.1.running
  unfolding ble_attached
  ble_attached_lem (inl error, e) = refl
  ble_attached_lem (inr a, e) = refl

  raise_tunnel-Grows :
      (prefix : mobile.Name) (tunnel : Option (Bool × ℕ × mobile.SocketAddr))
      (e : MobileEngine mobile)
      → Grows mobile e (raise_tunnel h prefix tunnel e)
  unfolding raise_tunnel
  raise_tunnel-Grows prefix none e = omega arith
  raise_tunnel-Grows prefix (some (adopts, fd, peer)) e =
      attach_infra_tunnel_fd-Grows mobile adopts prefix fd peer e

  pub note_route-Keeps :
      (prefix : mobile.Name) (face : Text) (tunnel : Option (Bool × ℕ × mobile.SocketAddr))
      (e : NdnEngine h)
      → Keeps e (note_route h prefix face tunnel e)
  unfolding note_route
  note_route-Keeps prefix face tunnel e i =
      if_running-Moves mobile texts e.running.inner _ e.running refl (λ inner. omega (
        arith,
        note_peer_route-Grows mobile prefix face inner,
        raise_tunnel-Grows prefix tunnel (note_peer_route mobile prefix face inner),
      ))

  pub opened_lem :
      (now : ℕ) (node_id : Text) (x : (NdnError ⊎ (lib.Signer × (List ℕ × lib.Name))) × NdnEngine h)
      → (opened h now node_id x).1 ≡ x.1
  unfolding opened
  opened_lem now node_id (inl error, e) = refl
  opened_lem now node_id (inr (signer, (cert_wire, identity_prefix)), e) = refl

  pub placed_lem : (x : (NdnError ⊎ _) × NdnEngine h) → (placed h x).1.running ≡ x.1.running
  unfolding placed
  placed_lem (inl error, e) = refl
  placed_lem (inr board, e) = refl

  pub added_lem :
      (now : ℕ) (file_id display_name mime : Text) (content : List ℕ) (board : Option _)
      (e : NdnEngine h)
      → (added h now file_id display_name mime content board e).1.running ≡ e.running
  unfolding added
  added_lem now file_id display_name mime content none e = refl
  added_lem now file_id display_name mime content (some board) e = refl

  pub removed_lem :
      (now : ℕ) (file_id : Text) (board : Option _) (e : NdnEngine h)
      → (removed h now file_id board e).1.running ≡ e.running
  unfolding removed
  removed_lem now file_id none e = refl
  removed_lem now file_id (some board) e = refl

  pub signed_by_lem :
      (public source : lib.Name) (size : ℕ) (signer : Option lib.Signer)
      (inner : Option (MobileEngine mobile)) (e : NdnEngine h)
      → e.running.inner ≡ inner
      → (signed_by h public source size signer e).1.running ≡ e.running
  unfolding signed_by relayed
  signed_by_lem public source size none inner e q = refl
  signed_by_lem public source size (some signer) none e q = rw (q, relayed) refl
  signed_by_lem public source size (some signer) (some inner) e q = rw (q, relayed) refl

  register_producer-Grows :
      (name : lib.Name) (e : MobileEngine mobile) → Grows mobile e (register_producer h name e).1
  unfolding register_producer
  register_producer-Grows name e = omega (
    arith,
    new_app_handle-Grows mobile e,
    register_prefix-Grows mobile (h.mobile_name name) (new_app_handle mobile e).0
        (new_app_handle mobile e).1,
  )

  pub register_producer_internal-Keeps :
      (name : lib.Name) (e : NdnEngine h) → Keeps e (register_producer_internal h name e).1
  unfolding register_producer_internal
  register_producer_internal-Keeps name e =
      on_running-Keeps _ e (
        on_engine-Moves mobile texts e.running.inner _ e.running refl
          (register_producer-Grows name))

  pub producing_lem :
      (handler : _) (x : (NdnError ⊎ ℕ) × NdnEngine h)
      → (producing h handler x).1.running ≡ x.1.running
  unfolding producing
  producing_lem handler (inl error, e) = refl
  producing_lem handler (inr face, e) = refl

  joined_lem :
      (handler : _) (x : (Text ⊎ _) × lib.World) (e : NdnEngine h)
      → (joined h handler x e).1.running ≡ e.running
  unfolding joined
  joined_lem handler (inl error, w) e = refl
  joined_lem handler (inr samples, w) e = refl

  pub subscribing_lem :
      (handler : _) (group : lib.Name) (pid : ℕ) (x : (NdnError ⊎ ℕ) × NdnEngine h)
      → (subscribing h handler group pid x).1.running ≡ x.1.running
  unfolding subscribing
  subscribing_lem handler group pid (inl error, e) = refl
  subscribing_lem handler group pid (inr face, e) = joined_lem handler _ e

  pub enrolled_by-Keeps :
      (allocs : ℕ) (config : _) (pin_handler : _) (inner : Option (MobileEngine mobile))
      (x : (NdnError ⊎ _) × NdnEngine h)
      → x.1.running.inner ≡ inner
      → Keeps x.1 (enrolled_by h allocs config pin_handler inner x).1
  unfolding enrolled_by on_core
  enrolled_by-Keeps allocs config pin_handler inner (inl error, e) q i =
      stays mobile texts e.running
  enrolled_by-Keeps allocs config pin_handler none (inr cfg, e) q i = stays mobile texts e.running
  enrolled_by-Keeps allocs config pin_handler (some inner) (inr cfg, e) q i =
      grown-Moves mobile texts e.running inner _ q (omega arith)
