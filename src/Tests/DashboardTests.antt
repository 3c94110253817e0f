-- ===== src/Tests/DashboardTests.antt =====
-- A run of the dashboard over a library that shows one face.
use ndn_mobile.Prelude.{ℕ, ◌≡◌, refl, map, true, none, some, [], ◌∷◌, inl, inr}
use ndn_mobile.Text.{codes}
use ndn_mobile.Dashboard.Model.{Library}
use ndn_mobile.Dashboard.Views.{from_response, from_state, from_face}
use ndn_mobile.Dashboard.{
  Console, Commands, Command, NdnDashboard, poll, face_destroy, commanded, finish,
}

abbrev console : Console
console = record {
  World = ℕ;
  MgmtClient = ℕ;
  connect = λ socket w. (inr 0, w);
  send_cmd_raw = λ module_name verb params client w. ((inr (200, [], []), client), w);
  Engine = ℕ;
}

-- Each record is a number, which its numbers are.
abbrev model : Library
model = record {
  ForwarderStatus = ℕ;
  status_n_faces = λ s. s;
  status_n_fib = λ s. s;
  status_n_pit = λ s. s;
  status_n_cs = λ s. s;
  status_nfd_version = λ s. codes "t";
  FaceInfo = ℕ;
  face_face_id = λ s. s;
  face_remote_uri = λ s. none;
  face_local_uri = λ s. none;
  face_persistency = λ s. codes "t";
  face_kind = λ s. none;
  face_face_scope = λ s. s;
  face_link_type = λ s. s;
  face_mtu = λ s. some s;
  face_n_in_interests = λ s. s;
  face_n_out_interests = λ s. s;
  face_n_in_data = λ s. s;
  face_n_out_data = λ s. s;
  face_n_in_bytes = λ s. s;
  face_n_out_bytes = λ s. s;
  face_n_in_nacks = λ s. s;
  face_n_out_nacks = λ s. s;
  face_flags = λ s. s;
  NextHop = ℕ;
  hop_face_id = λ s. s;
  hop_cost = λ s. s;
  FibEntry = ℕ;
  fib_prefix = λ s. codes "t";
  fib_nexthops = λ s. s ∷ [];
  CsInfo = ℕ;
  cs_capacity_bytes = λ s. s;
  cs_n_entries = λ s. s;
  cs_used_bytes = λ s. s;
  cs_hits = λ s. s;
  cs_misses = λ s. s;
  cs_variant = λ s. codes "t";
  StrategyEntry = ℕ;
  strategy_prefix = λ s. codes "t";
  strategy_strategy = λ s. codes "t";
  PendingApproval = ℕ;
  approval_request_id = λ s. codes "t";
  approval_cert_name = λ s. codes "t";
  approval_description = λ s. codes "t";
  SecurityKeyInfo = ℕ;
  key_name = λ s. codes "t";
  key_has_cert = λ s. true;
  key_valid_until = λ s. codes "t";
  key_public_key_b64 = λ s. codes "t";
  key_days_to_expiry = λ s. none;
  AnchorInfo = ℕ;
  anchor_name = λ s. codes "t";
  anchor_source = λ s. none;
  IdentityState = ℕ;
  identity_approvals = λ s. s ∷ [];
  identity_identities = λ s. s ∷ [];
  identity_anchors = λ s. s ∷ [];
  DashboardState = ℕ;
  state_status = λ s. some s;
  state_faces = λ s. s ∷ [];
  state_routes = λ s. s ∷ [];
  state_cs = λ s. some s;
  state_strategies = λ s. s ∷ [];
}

-- A command is refused with a status, or does not come through.
abbrev refuses : Command ℕ ℕ
refuses e w = ((inr (record { status_code = 404; status_text = []; body = [] }), e), w)

abbrev fails : Command ℕ ℕ
fails e w = ((inl (codes "closed"), e), w)

abbrev commands : Commands console
commands = record {
  model = model;
  new = λ client. 0;
  poll_forwarding = λ e w. (e, w);
  state = λ e. 7;
  poll_identity = λ e w. (e, w);
  identity_state = λ e. 9;
  face_create = λ uri. fails;
  face_destroy = λ face_id. refuses;
  route_register = λ prefix face_id cost. fails;
  route_unregister = λ prefix face_id. fails;
  strategy_set = λ prefix strategy. fails;
  strategy_unset = λ prefix. fails;
  cs_capacity = λ capacity. fails;
  cs_erase = λ prefix. fails;
  shutdown = fails;
  ca_approve = λ request_id. fails;
  ca_deny = λ request_id reason. fails;
  anchor_remove = λ key_name. fails;
  anchor_add = λ key_name cert_wire. fails;
  safebag_import = λ key_name safebag_wire passphrase. fails;
}

abbrev dashboard : NdnDashboard console commands
dashboard = record { engine = 0; world = 0 }

refused_is_ok :
    (face_destroy console commands 9 dashboard).0
    ≡ inr (record { status_code = 404; status_text = []; body = [] })
unfolding face_destroy commanded finish from_response
refused_is_ok = refl

shown : map (λ f. f.n_in_data) (poll console commands dashboard).0.faces ≡ 7 ∷ []
unfolding poll from_state from_face
shown = refl
