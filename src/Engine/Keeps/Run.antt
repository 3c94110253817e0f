-- ===== src/Engine/Keeps/Run.antt =====
-- Every call of the engine object keeps its mobile engine and connections in order.
use ndn_mobile.Prelude.{refl, ap, ◌∙◌, subst, sym, List, [], ◌∷◌}
use ndn_mobile.Engine.Calls
use ndn_mobile.Engine.Calls.{Running}
use ndn_mobile.Engine.Object.{Host, NdnEngine, on_core, on_running}
use ndn_mobile.Engine.Moves.{
  Moves, stays, both, suspend-Moves, resume-Moves, shutdown-Moves, alloc_app_handle-Moves,
  mount_fd-Moves, attach_ndp-Moves, attach_direct-Moves, attach_direct_multicast-Moves,
  detach-Moves, attach_nan-Moves, attach_adv-Moves, declare_region-Moves,
}
use ndn_mobile.Engine.Fetch.{
  at_once, reset_progress, fetch, get, fetch_object, fetch_object_verified,
  fetch_object_verified_hinted, fetch_object_to_fd,
}
use ndn_mobile.Engine.Radios.{
  attach_wifi_aware, attach_ble, nan_deliver_followup, nan_on_match, ble_deliver_frame,
}
use ndn_mobile.Engine.Serving.{
  start_discovery, start_board, add_offer, remove_offer, register_object_relay,
}
use ndn_mobile.Engine.Producers.{register_producer_internal, serve, subscribe, enroll}
use ndn_mobile.Engine.Run.{
  Event, suspends, resumes, shuts_down, fetches, gets, fetches_object, fetches_verified,
  fetches_hinted, fetches_to_fd, asks_core, attaches_nan, hears_followup, hears_match, attaches_ble,
  hears_frame, notes_peer, discovers, starts_board, adds_offer, removes_offer, relays_object,
  serves, subscribes, enrolls, mounts_fd, attaches_ndp, attaches_direct, attaches_group, detaches,
  step, after,
}
use ndn_mobile.Engine.Keeps.{
  Keeps, parsed-Keeps, consuming-Keeps, nan_attached_lem, ble_attached_lem, note_route-Keeps,
  opened_lem, placed_lem, added_lem, removed_lem, signed_by_lem, register_producer_internal-Keeps,
  producing_lem, subscribing_lem, enrolled_by-Keeps,
}

module _ (h : Host) where
  open h use {mobile, texts, p}
  open p use {lib}

  pub step-Keeps : (k : Event h) (e : NdnEngine h) → Keeps h e (step h k e)
  unfolding step fetch get fetch_object fetch_object_verified fetch_object_verified_hinted
      fetch_object_to_fd at_once reset_progress on_core attach_wifi_aware attach_ble on_running
      nan_deliver_followup nan_on_match ble_deliver_frame start_discovery start_board add_offer
      remove_offer register_object_relay serve subscribe enroll
  step-Keeps suspends e = λ i. suspend-Moves mobile texts e.running
  step-Keeps (resumes out) e = λ i. resume-Moves mobile texts out e.running
  step-Keeps shuts_down e = λ i. shutdown-Moves mobile texts e.running
  step-Keeps (fetches name) e =
      parsed-Keeps h name _ e (λ n. consuming-Keeps h (at_once h) (λ s. refl) _ name e)
  step-Keeps (gets name) e =
      parsed-Keeps h name _ e (λ n. consuming-Keeps h (at_once h) (λ s. refl) _ name e)
  step-Keeps (fetches_object name) e =
      parsed-Keeps h name _ e (λ n. consuming-Keeps h (at_once h) (λ s. refl) _ name e)
  step-Keeps (fetches_verified name) e =
      parsed-Keeps h name _ e (λ n. consuming-Keeps h (at_once h) (λ s. refl) _ name e)
  step-Keeps (fetches_hinted name hint) e =
      parsed-Keeps h name _ e
        (λ n. parsed-Keeps h hint _ e (λ _. consuming-Keeps h (at_once h) (λ s. refl) _ name e))
  step-Keeps (fetches_to_fd name hint fd) e = parsed-Keeps h name _ e (λ n.
      parsed-Keeps h hint _ e (λ _. consuming-Keeps h (reset_progress h) (λ s. refl) _ name e))
  step-Keeps (asks_core m) e = λ i. stays mobile texts e.running
  step-Keeps (attaches_nan service backend) e = λ i.
      subst (Moves mobile texts e.running)
        (sym (
          nan_attached_lem h service backend
            (on_running h (Calls.attach_nan mobile texts backend) e)))
        (attach_nan-Moves mobile texts backend e.running)
  step-Keeps (hears_followup frame peer rssi) e = λ i. stays mobile texts e.running
  step-Keeps (hears_match service peer) e = λ i. stays mobile texts e.running
  step-Keeps (attaches_ble backend) e = λ i.
      subst (Moves mobile texts e.running)
        (sym (ble_attached_lem h (on_running h (Calls.attach_adv mobile texts backend) e)))
        (attach_adv-Moves mobile texts backend e.running)
  step-Keeps (hears_frame frame addr rssi) e = λ i. stays mobile texts e.running
  step-Keeps (notes_peer prefix face tunnel) e = note_route-Keeps h prefix face tunnel e
  step-Keeps (discovers node_id label) e = λ i. declare_region-Moves mobile texts node_id e.running
  step-Keeps (starts_board now node_id) e = λ i.
      subst (Moves mobile texts e.running)
        (sym (placed_lem h _ ∙ ap (λ (s : NdnEngine h). s.running) (opened_lem h now node_id _)))
        (declare_region-Moves mobile texts node_id e.running)
  step-Keeps (adds_offer now file_id display_name mime content) e = λ i.
      subst (Moves mobile texts e.running)
        (sym (added_lem h now file_id display_name mime content e.offer_board e))
        (stays mobile texts e.running)
  step-Keeps (removes_offer now file_id) e = λ i.
      subst (Moves mobile texts e.running) (sym (removed_lem h now file_id e.offer_board e))
        (stays mobile texts e.running)
  step-Keeps (relays_object public_name source_prefix size) e =
      parsed-Keeps h public_name _ e (λ public. parsed-Keeps h source_prefix _ e (λ source i.
        subst (Moves mobile texts e.running)
          (sym (signed_by_lem h public source size e.core.identity e.running.inner e refl))
          (stays mobile texts e.running)))
  step-Keeps (serves prefix handler) e = parsed-Keeps h prefix _ e (λ name i.
      subst (Moves mobile texts e.running)
        (sym (producing_lem h handler (register_producer_internal h name e)))
        (register_producer_internal-Keeps h name e i))
  step-Keeps (subscribes group pid handler) e = parsed-Keeps h group _ e (λ name i.
      subst (Moves mobile texts e.running)
        (sym (
          subscribing_lem h handler name pid
            (on_running h (Calls.alloc_app_handle mobile texts) e)))
        (alloc_app_handle-Moves mobile texts e.running))
  step-Keeps (enrolls allocs config pin_handler) e =
      enrolled_by-Keeps h allocs config pin_handler e.running.inner _ refl
  step-Keeps (mounts_fd adopts error fd) e =
      λ i. mount_fd-Moves mobile texts adopts error fd e.running
  step-Keeps (attaches_ndp adopts error node_id fd peer_ip peer_port scope_id) e = λ i.
      attach_ndp-Moves mobile texts adopts error node_id fd peer_ip peer_port scope_id e.running
  step-Keeps (attaches_direct adopts error node_id fd peer_ip peer_port) e =
      λ i. attach_direct-Moves mobile texts adopts error node_id fd peer_ip peer_port e.running
  step-Keeps (attaches_group opens error local_ip) e =
      λ i. attach_direct_multicast-Moves mobile texts opens error local_ip e.running
  step-Keeps (detaches face_id) e = λ i. detach-Moves mobile texts face_id e.running

  pub after-Keeps : (ks : List (Event h)) (e : NdnEngine h) → Keeps h e (after h ks e)
  after-Keeps [] e i = stays mobile texts e.running
  after-Keeps (k ∷ ks) e i =
      let m = step-Keeps k e i in
      both mobile texts _ _ _ m (after-Keeps ks (step h k e) (m.ready i))
