-- ===== src/Engine/Radios.antt =====
-- The radios of the engine object: each has the engine's half of its seam here, once it is attached.
use ndn_mobile.Prelude.{ℕ, Bool, true, Option, none, some, List, ◌⊎◌, inl, inr}
use ndn_mobile.Text.{Text}
use ndn_mobile.Text.Print.{ℤ}
use ndn_mobile.Types.{NdnError}
use ndn_mobile.Radio.Ble
use ndn_mobile.Radio.Ble.{deliver_frame}
use ndn_mobile.Radio.{make_seam, deliver_followup, on_match}
use ndn_mobile.Mobile.{MobileEngine}
use ndn_mobile.Mobile.Routes.{note_peer_route}
use ndn_mobile.Mobile.Bulk.{attach_infra_tunnel_fd}
use ndn_mobile.Engine.Calls.{attach_nan, attach_adv, if_running}
use ndn_mobile.Engine.Object.{Host, NdnEngine, Call, on_running}

module _ (h : Host) where
  open h use {mobile, texts, p}

  unfoldable pub nan_attached :
      Text → mobile.NanBackend → (NdnError ⊎ Bool) × NdnEngine h → (NdnError ⊎ Bool) × NdnEngine h
  nan_attached service backend (inl error, e) = (inl error, e)
  nan_attached service backend (inr a, e) = (
    inr true,
    record e {
      core = record e.core { world = h.announce_service backend service e.core.world };
      nan_seam = some make_seam;
    },
  )

  unfoldable pub attach_wifi_aware : Text → mobile.NanBackend → Call h Bool
  attach_wifi_aware service backend e =
      nan_attached service backend (on_running h (attach_nan mobile texts backend) e)

  unfoldable pub ble_attached : (NdnError ⊎ Bool) × NdnEngine h → (NdnError ⊎ Bool) × NdnEngine h
  ble_attached (inl error, e) = (inl error, e)
  ble_attached (inr a, e) = (inr true, record e { ble_seam = some Ble.make_seam })

  unfoldable pub attach_ble : mobile.AdvBackend → Call h Bool
  attach_ble backend e = ble_attached (on_running h (attach_adv mobile texts backend) e)

  unfoldable pub on_seam : {S : Type 0} → (S → S) → Option S → Option S
  on_seam f none = none
  on_seam f (some seam) = some (f seam)

  unfoldable pub nan_deliver_followup : (frame peer : List ℕ) → ℤ → NdnEngine h → NdnEngine h
  nan_deliver_followup frame peer rssi e = record e {
    nan_seam = on_seam (deliver_followup frame peer rssi) e.nan_seam;
  }

  unfoldable pub nan_on_match : Text → List ℕ → NdnEngine h → NdnEngine h
  nan_on_match service peer e = record e { nan_seam = on_seam (on_match service peer) e.nan_seam }

  unfoldable pub ble_deliver_frame : (frame addr : List ℕ) → ℤ → NdnEngine h → NdnEngine h
  ble_deliver_frame frame addr rssi e = record e {
    ble_seam = on_seam (deliver_frame frame addr rssi) e.ble_seam;
  }

  unfoldable pub raise_tunnel :
      mobile.Name
      → Option (Bool × ℕ × mobile.SocketAddr)
      → MobileEngine mobile
      → MobileEngine mobile
  raise_tunnel prefix none e = e
  raise_tunnel prefix (some (adopts, fd, peer)) e =
      (attach_infra_tunnel_fd mobile adopts prefix fd peer e).1

  -- What a beacon does to the mobile engine, where its node has a prefix. Infra says which tunnel is
  -- tried.
  unfoldable pub note_route :
      mobile.Name → Text → Option (Bool × ℕ × mobile.SocketAddr) → NdnEngine h → NdnEngine h
  note_route prefix face tunnel e = record e {
    running =
        if_running mobile texts e.running.inner
          (λ inner. raise_tunnel prefix tunnel (note_peer_route mobile prefix face inner))
          e.running;
  }
