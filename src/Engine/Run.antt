-- ===== src/Engine/Run.antt =====
-- The calls of the engine object as events, with what the outside answers to each.
use ndn_mobile.Prelude.{ℕ, Bool, Option, List, [], ◌∷◌}
use ndn_mobile.Text.{Text}
use ndn_mobile.Text.Print.{ℤ}
use ndn_mobile.Types.{NdnSample}
use ndn_mobile.Mobile.Build.{Outcome}
use ndn_mobile.Identity.{Act}
use ndn_mobile.Identity.Load.{NdnEnrollConfig}
use ndn_mobile.Engine.Calls
use ndn_mobile.Engine.Object.{Host, NdnEngine, on_core, on_running}
use ndn_mobile.Engine.Fetch.{
  fetch, get, fetch_object, fetch_object_verified, fetch_object_verified_hinted, fetch_object_to_fd,
}
use ndn_mobile.Engine.Radios.{
  attach_wifi_aware, attach_ble, nan_deliver_followup, nan_on_match, ble_deliver_frame, note_route,
}
use ndn_mobile.Engine.Serving.{
  start_discovery, start_board, add_offer, remove_offer, register_object_relay,
}
use ndn_mobile.Engine.Producers.{InterestHandler, PinHandler, serve, subscribe, enroll}

module _ (h : Host) where
  open h use {mobile, texts, p}
  open p use {lib}

  pub data Event : Type 1 where
    suspends : Event
    resumes : Outcome mobile → Event
    shuts_down : Event
    fetches : Text → Event
    gets : Text → Event
    fetches_object : Text → Event
    fetches_verified : Text → Event
    fetches_hinted : (name hint : Text) → Event
    fetches_to_fd : (name hint : Text) → (fd : ℕ) → Event
    -- Any call that goes to the identity core alone.
    asks_core : {A : Type 0} → Act p A → Event
    attaches_nan : Text → mobile.NanBackend → Event
    hears_followup : (frame peer : List ℕ) → ℤ → Event
    hears_match : Text → List ℕ → Event
    attaches_ble : mobile.AdvBackend → Event
    hears_frame : (frame addr : List ℕ) → ℤ → Event
    notes_peer :
        mobile.Name → (face : Text) → (tunnel : Option (Bool × ℕ × mobile.SocketAddr)) → Event
    discovers : (node_id label : Text) → Event
    starts_board : ℕ → Text → Event
    adds_offer : ℕ → (file_id display_name mime : Text) → List ℕ → Event
    removes_offer : ℕ → Text → Event
    relays_object : (public_name source_prefix : Text) → (size : ℕ) → Event
    serves : Text → InterestHandler h → Event
    subscribes : Text → (pid : ℕ) → (NdnSample → lib.World → lib.World) → Event
    enrolls : (allocs : ℕ) → NdnEnrollConfig → PinHandler h → Event
    mounts_fd : (adopts : Bool) → (error : Text) → (fd : ℕ) → Event
    attaches_ndp :
        (adopts : Bool)
        → (error node_id : Text) → (fd : ℕ) → (peer_ip : Text) → (peer_port scope_id : ℕ) → Event
    attaches_direct :
        (adopts : Bool)
        → (error node_id : Text) → (fd : ℕ) → (peer_ip : Text) → (peer_port : ℕ) → Event
    attaches_group : (opens : Bool) → (error local_ip : Text) → Event
    detaches : (face_id : ℕ) → Event

  unfoldable pub step : Event → NdnEngine h → NdnEngine h
  step suspends e = record e { running = Calls.suspend mobile texts e.running }
  step (resumes out) e = record e { running = Calls.resume mobile texts out e.running }
  step shuts_down e = record e { running = Calls.shutdown mobile texts e.running }
  step (fetches name) e = (fetch h name e).1
  step (gets name) e = (get h name e).1
  step (fetches_object name) e = (fetch_object h name e).1
  step (fetches_verified name) e = (fetch_object_verified h name e).1
  step (fetches_hinted name hint) e = (fetch_object_verified_hinted h name hint e).1
  step (fetches_to_fd name hint fd) e = (fetch_object_to_fd h name hint fd e).1
  step (asks_core m) e = (on_core h m e).1
  step (attaches_nan service backend) e = (attach_wifi_aware h service backend e).1
  step (hears_followup frame peer rssi) e = nan_deliver_followup h frame peer rssi e
  step (hears_match service peer) e = nan_on_match h service peer e
  step (attaches_ble backend) e = (attach_ble h backend e).1
  step (hears_frame frame addr rssi) e = ble_deliver_frame h frame addr rssi e
  step (notes_peer prefix face tunnel) e = note_route h prefix face tunnel e
  step (discovers node_id label) e = (start_discovery h node_id label e).1
  step (starts_board now node_id) e = (start_board h now node_id e).1
  step (adds_offer now file_id display_name mime content) e =
      (add_offer h now file_id display_name mime content e).1
  step (removes_offer now file_id) e = (remove_offer h now file_id e).1
  step (relays_object public_name source_prefix size) e =
      (register_object_relay h public_name source_prefix size e).1
  step (serves prefix handler) e = (serve h prefix handler e).1
  step (subscribes group pid handler) e = (subscribe h group pid handler e).1
  step (enrolls allocs config pin_handler) e = (enroll h allocs config pin_handler e).1
  step (mounts_fd adopts error fd) e =
      (on_running h (Calls.mount_fd mobile texts adopts error fd) e).1
  step (attaches_ndp adopts error node_id fd peer_ip peer_port scope_id) e =
      (on_running h
        (Calls.attach_ndp mobile texts adopts error node_id fd peer_ip peer_port scope_id) e).1
  step (attaches_direct adopts error node_id fd peer_ip peer_port) e =
      (on_running h (Calls.attach_direct mobile texts adopts error node_id fd peer_ip peer_port)
        e).1
  step (attaches_group opens error local_ip) e =
      (on_running h (Calls.attach_direct_multicast mobile texts opens error local_ip) e).1
  step (detaches face_id) e = record e { running = Calls.detach mobile texts face_id e.running }

  abbrev pub after : List Event → NdnEngine h → NdnEngine h
  after [] e = e
  after (k ∷ ks) e = after ks (step k e)
