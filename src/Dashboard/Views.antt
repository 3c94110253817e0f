-- ===== src/Dashboard/Views.antt =====
-- What the host sees of a forwarder: the views of crates/ndn-boltffi/src/dashboard.rs.
use ndn_mobile.Prelude.{ℕ, Bool, Option, List, map}
use mathlib.Core.Option
use ndn_mobile.Text.{Text}
use ndn_mobile.Text.Print.{ℤ}
use ndn_mobile.Dashboard.Model.{MgmtResponse, Library}

pub record NdnForwarderStatus : Type 0 where
  pub n_faces : ℕ
  pub n_fib : ℕ
  pub n_pit : ℕ
  pub n_cs : ℕ
  pub nfd_version : Text

pub record NdnFaceInfo : Type 0 where
  pub face_id : ℕ
  pub remote_uri : Option Text
  pub local_uri : Option Text
  pub persistency : Text
  pub kind : Option Text
  pub face_scope : ℕ
  pub link_type : ℕ
  pub mtu : Option ℕ
  pub n_in_interests : ℕ
  pub n_out_interests : ℕ
  pub n_in_data : ℕ
  pub n_out_data : ℕ
  pub n_in_bytes : ℕ
  pub n_out_bytes : ℕ
  pub n_in_nacks : ℕ
  pub n_out_nacks : ℕ
  pub flags : ℕ

pub record NdnNextHop : Type 0 where
  pub face_id : ℕ
  pub cost : ℕ

pub record NdnFibEntry : Type 0 where
  pub prefix : Text
  pub nexthops : List NdnNextHop

pub record NdnCsInfo : Type 0 where
  pub capacity_bytes : ℕ
  pub n_entries : ℕ
  pub used_bytes : ℕ
  pub hits : ℕ
  pub misses : ℕ
  pub variant : Text

pub record NdnStrategyEntry : Type 0 where
  pub prefix : Text
  pub strategy : Text

pub record NdnMgmtResponse : Type 0 where
  pub status_code : ℕ
  pub status_text : Text
  pub body : List ℕ

pub record NdnPendingApproval : Type 0 where
  pub request_id : Text
  pub cert_name : Text
  pub description : Text

pub record NdnSecurityKey : Type 0 where
  pub name : Text
  pub has_cert : Bool
  pub valid_until : Text
  pub public_key_b64 : Text
  pub days_to_expiry : Option ℤ

pub record NdnTrustAnchor : Type 0 where
  pub name : Text
  pub source : Option Text

pub record NdnIdentityState : Type 0 where
  pub approvals : List NdnPendingApproval
  pub identities : List NdnSecurityKey
  pub anchors : List NdnTrustAnchor

pub record NdnDashboardState : Type 0 where
  pub status : Option NdnForwarderStatus
  pub faces : List NdnFaceInfo
  pub routes : List NdnFibEntry
  pub cs : Option NdnCsInfo
  pub strategies : List NdnStrategyEntry

unfoldable pub from_response : MgmtResponse → NdnMgmtResponse
from_response s = record { status_code = s.status_code; status_text = s.status_text; body = s.body }

module _ (m : Library) where
  unfoldable pub from_status : m.ForwarderStatus → NdnForwarderStatus
  from_status s = record {
    n_faces = m.status_n_faces s;
    n_fib = m.status_n_fib s;
    n_pit = m.status_n_pit s;
    n_cs = m.status_n_cs s;
    nfd_version = m.status_nfd_version s;
  }

  unfoldable pub from_face : m.FaceInfo → NdnFaceInfo
  from_face s = record {
    face_id = m.face_face_id s;
    remote_uri = m.face_remote_uri s;
    local_uri = m.face_local_uri s;
    persistency = m.face_persistency s;
    kind = m.face_kind s;
    face_scope = m.face_face_scope s;
    link_type = m.face_link_type s;
    mtu = m.face_mtu s;
    n_in_interests = m.face_n_in_interests s;
    n_out_interests = m.face_n_out_interests s;
    n_in_data = m.face_n_in_data s;
    n_out_data = m.face_n_out_data s;
    n_in_bytes = m.face_n_in_bytes s;
    n_out_bytes = m.face_n_out_bytes s;
    n_in_nacks = m.face_n_in_nacks s;
    n_out_nacks = m.face_n_out_nacks s;
    flags = m.face_flags s;
  }

  unfoldable pub from_hop : m.NextHop → NdnNextHop
  from_hop s = record { face_id = m.hop_face_id s; cost = (m.hop_cost s) }

  unfoldable pub from_fib : m.FibEntry → NdnFibEntry
  from_fib s = record { prefix = m.fib_prefix s; nexthops = map from_hop (m.fib_nexthops s) }

  unfoldable pub from_cs : m.CsInfo → NdnCsInfo
  from_cs s = record {
    capacity_bytes = m.cs_capacity_bytes s;
    n_entries = m.cs_n_entries s;
    used_bytes = m.cs_used_bytes s;
    hits = m.cs_hits s;
    misses = m.cs_misses s;
    variant = m.cs_variant s;
  }

  unfoldable pub from_strategy : m.StrategyEntry → NdnStrategyEntry
  from_strategy s = record { prefix = m.strategy_prefix s; strategy = (m.strategy_strategy s) }

  unfoldable pub from_state : m.DashboardState → NdnDashboardState
  from_state s = record {
    status = Option.map from_status (m.state_status s);
    faces = map from_face (m.state_faces s);
    routes = map from_fib (m.state_routes s);
    cs = Option.map from_cs (m.state_cs s);
    strategies = map from_strategy (m.state_strategies s);
  }

  unfoldable pub from_anchor : m.AnchorInfo → NdnTrustAnchor
  from_anchor s = record { name = m.anchor_name s; source = (m.anchor_source s) }

  unfoldable pub from_approval : m.PendingApproval → NdnPendingApproval
  from_approval s = record {
    request_id = m.approval_request_id s;
    cert_name = m.approval_cert_name s;
    description = m.approval_description s;
  }

  unfoldable pub from_key : m.SecurityKeyInfo → NdnSecurityKey
  from_key s = record {
    name = m.key_name s;
    has_cert = m.key_has_cert s;
    valid_until = m.key_valid_until s;
    public_key_b64 = m.key_public_key_b64 s;
    days_to_expiry = m.key_days_to_expiry s;
  }

  unfoldable pub from_identity : m.IdentityState → NdnIdentityState
  from_identity s = record {
    approvals = map from_approval (m.identity_approvals s);
    identities = map from_key (m.identity_identities s);
    anchors = map from_anchor (m.identity_anchors s);
  }
