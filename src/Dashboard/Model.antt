-- ===== src/Dashboard/Model.antt =====
-- What dashboard.rs uses of the dashboard library's state: its records are abstract, and each field or
-- method that is read is a function.
use ndn_mobile.Prelude.{ℕ, Bool, Option, List}
use ndn_mobile.Text.{Text}
use ndn_mobile.Text.Print.{ℤ}

-- The response to a command, which `send_cmd` builds field by field.
pub record MgmtResponse : Type 0 where
  pub status_code : ℕ
  pub status_text : Text
  pub body : List ℕ

pub record Library : Type 1 where
  pub ForwarderStatus : Type 0
  pub FaceInfo : Type 0
  pub NextHop : Type 0
  pub FibEntry : Type 0
  pub CsInfo : Type 0
  pub StrategyEntry : Type 0
  pub PendingApproval : Type 0
  pub SecurityKeyInfo : Type 0
  pub AnchorInfo : Type 0
  pub IdentityState : Type 0
  pub DashboardState : Type 0
  pub status_n_faces : ForwarderStatus → ℕ
  pub status_n_fib : ForwarderStatus → ℕ
  pub status_n_pit : ForwarderStatus → ℕ
  pub status_n_cs : ForwarderStatus → ℕ
  pub status_nfd_version : ForwarderStatus → Text
  pub face_face_id : FaceInfo → ℕ
  pub face_remote_uri : FaceInfo → Option Text
  pub face_local_uri : FaceInfo → Option Text
  pub face_persistency : FaceInfo → Text
  pub face_kind : FaceInfo → Option Text
  pub face_face_scope : FaceInfo → ℕ
  pub face_link_type : FaceInfo → ℕ
  pub face_mtu : FaceInfo → Option ℕ
  pub face_n_in_interests : FaceInfo → ℕ
  pub face_n_out_interests : FaceInfo → ℕ
  pub face_n_in_data : FaceInfo → ℕ
  pub face_n_out_data : FaceInfo → ℕ
  pub face_n_in_bytes : FaceInfo → ℕ
  pub face_n_out_bytes : FaceInfo → ℕ
  pub face_n_in_nacks : FaceInfo → ℕ
  pub face_n_out_nacks : FaceInfo → ℕ
  pub face_flags : FaceInfo → ℕ
  pub hop_face_id : NextHop → ℕ
  pub hop_cost : NextHop → ℕ
  pub fib_prefix : FibEntry → Text
  pub fib_nexthops : FibEntry → List NextHop
  pub cs_capacity_bytes : CsInfo → ℕ
  pub cs_n_entries : CsInfo → ℕ
  pub cs_used_bytes : CsInfo → ℕ
  pub cs_hits : CsInfo → ℕ
  pub cs_misses : CsInfo → ℕ
  pub cs_variant : CsInfo → Text
  pub strategy_prefix : StrategyEntry → Text
  pub strategy_strategy : StrategyEntry → Text
  pub approval_request_id : PendingApproval → Text
  pub approval_cert_name : PendingApproval → Text
  pub approval_description : PendingApproval → Text
  pub key_name : SecurityKeyInfo → Text
  pub key_has_cert : SecurityKeyInfo → Bool
  pub key_valid_until : SecurityKeyInfo → Text
  pub key_public_key_b64 : SecurityKeyInfo → Text
  pub key_days_to_expiry : SecurityKeyInfo → Option ℤ
  pub anchor_name : AnchorInfo → Text
  pub anchor_source : AnchorInfo → Option Text
  pub identity_approvals : IdentityState → List PendingApproval
  pub identity_identities : IdentityState → List SecurityKeyInfo
  pub identity_anchors : IdentityState → List AnchorInfo
  pub state_status : DashboardState → Option ForwarderStatus
  pub state_faces : DashboardState → List FaceInfo
  pub state_routes : DashboardState → List FibEntry
  pub state_cs : DashboardState → Option CsInfo
  pub state_strategies : DashboardState → List StrategyEntry
