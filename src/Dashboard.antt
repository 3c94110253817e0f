-- ===== src/Dashboard.antt =====
-- The operator's dashboard of crates/ndn-boltffi/src/dashboard.rs over the dashboard library. A call
-- blocks, and is one call of the library's engine against the world.
pub mod Model
pub mod Views
use ndn_mobile.Prelude.{ℕ, Option, List, ◌⊎◌, inl, inr}
use ndn_mobile.Text.{Text}
use ndn_mobile.Text.Print.{ℤ}
use ndn_mobile.Types.{NdnError, engine}
use ndn_mobile.Dashboard.Model.{MgmtResponse, Library}
use ndn_mobile.Dashboard.Views.{
  NdnMgmtResponse, NdnDashboardState, NdnIdentityState, from_response, from_state, from_identity,
}

-- The socket client, and the library's engine over any management client.
pub record Console : Type 1 where
  pub World : Type 0
  pub MgmtClient : Type 0
  pub connect : Text → World → (Text ⊎ MgmtClient) × World
  -- `send_cmd_raw` of a module's verb, with the parameters' wire.
  pub send_cmd_raw :
      (module_name verb : Text)
      → Option (List ℕ)
      → MgmtClient
      → World
      → ((Text ⊎ (ℕ × Text × List ℕ)) × MgmtClient) × World
  pub Engine : Type 0

abbrev pub Command : Type 0 → Type 0 → Type 0
Command E W = E → W → ((Text ⊎ MgmtResponse) × E) × W

pub record Commands (c : Console) : Type 1 where
  pub model : Library
  pub new : c.MgmtClient → c.Engine
  pub poll_forwarding : c.Engine → c.World → c.Engine × c.World
  pub state : c.Engine → model.DashboardState
  pub poll_identity : c.Engine → c.World → c.Engine × c.World
  pub identity_state : c.Engine → model.IdentityState
  pub face_create : (uri : Text) → Command c.Engine c.World
  pub face_destroy : (face_id : ℕ) → Command c.Engine c.World
  pub route_register : (prefix : Text) → (face_id : ℕ) → (cost : ℕ) → Command c.Engine c.World
  pub route_unregister : (prefix : Text) → (face_id : ℕ) → Command c.Engine c.World
  pub strategy_set : (prefix : Text) → (strategy : Text) → Command c.Engine c.World
  pub strategy_unset : (prefix : Text) → Command c.Engine c.World
  pub cs_capacity : (capacity : ℕ) → Command c.Engine c.World
  pub cs_erase : (prefix : Text) → Command c.Engine c.World
  pub shutdown : Command c.Engine c.World
  pub ca_approve : (request_id : Text) → Command c.Engine c.World
  pub ca_deny : (request_id : Text) → (reason : Text) → Command c.Engine c.World
  pub anchor_remove : (key_name : Text) → Command c.Engine c.World
  pub anchor_add : (key_name : Text) → (cert_wire : List ℕ) → Command c.Engine c.World
  pub safebag_import :
      (key_name : Text) → (safebag_wire : List ℕ) → (passphrase : List ℕ) → Command c.Engine c.World

module _ (c : Console) (m : Commands c) where
  open c use {World, MgmtClient, Engine}

  unfoldable pub as_response : Text ⊎ (ℕ × Text × List ℕ) → Text ⊎ MgmtResponse
  as_response (inl e) = inl e
  as_response (inr (status_code, status_text, body)) =
      inr (record { status_code = status_code; status_text = status_text; body = body })

  -- `ManagementClient` for `BoltMgmtClient`.
  unfoldable pub send_cmd :
      (module_name verb : Text)
      → Option (List ℕ)
      → MgmtClient
      → World
      → ((Text ⊎ MgmtResponse) × MgmtClient) × World
  send_cmd module_name verb params client w =
      let ((r, client), w) = c.send_cmd_raw module_name verb params client w in
      ((as_response r, client), w)

  pub record NdnDashboard : Type 0 where
    pub engine : Engine
    pub world : World

  connected : (Text ⊎ MgmtClient) × World → NdnError ⊎ NdnDashboard
  connected (inl e, w) = inl (engine e)
  connected (inr client, w) = inr (record { engine = m.new client; world = w })

  unfoldable pub connect : Text → World → NdnError ⊎ NdnDashboard
  unfolding connected
  connect socket w = connected (c.connect socket w)

  unfoldable pub poll : NdnDashboard → NdnDashboardState × NdnDashboard
  poll d =
      let (e, w) = m.poll_forwarding d.engine d.world in
      (from_state m.model (m.state e), record { engine = e; world = w })

  unfoldable pub poll_identity : NdnDashboard → NdnIdentityState × NdnDashboard
  poll_identity d =
      let (e, w) = m.poll_identity d.engine d.world in
      (from_identity m.model (m.identity_state e), record { engine = e; world = w })

  unfoldable pub finish : Text ⊎ MgmtResponse → NdnError ⊎ NdnMgmtResponse
  finish (inl e) = inl (engine e)
  finish (inr r) = inr (from_response r)

  abbrev pub Call : Type 0
  Call = NdnDashboard → (NdnError ⊎ NdnMgmtResponse) × NdnDashboard

  unfoldable pub commanded : Command Engine World → Call
  commanded run d =
      let ((r, e), w) = run d.engine d.world in (finish r, record { engine = e; world = w })

  unfoldable pub face_create : (uri : Text) → Call
  face_create uri = commanded (m.face_create uri)

  unfoldable pub face_destroy : (face_id : ℕ) → Call
  face_destroy face_id = commanded (m.face_destroy face_id)

  unfoldable pub route_register : (prefix : Text) → (face_id : ℕ) → (cost : ℕ) → Call
  route_register prefix face_id cost = commanded (m.route_register prefix face_id cost)

  unfoldable pub route_unregister : (prefix : Text) → (face_id : ℕ) → Call
  route_unregister prefix face_id = commanded (m.route_unregister prefix face_id)

  unfoldable pub strategy_set : (prefix : Text) → (strategy : Text) → Call
  strategy_set prefix strategy = commanded (m.strategy_set prefix strategy)

  unfoldable pub strategy_unset : (prefix : Text) → Call
  strategy_unset prefix = commanded (m.strategy_unset prefix)

  unfoldable pub cs_capacity : (capacity : ℕ) → Call
  cs_capacity capacity = commanded (m.cs_capacity capacity)

  unfoldable pub cs_erase : (prefix : Text) → Call
  cs_erase prefix = commanded (m.cs_erase prefix)

  unfoldable pub shutdown : Call
  shutdown = commanded m.shutdown

  unfoldable pub ca_approve : (request_id : Text) → Call
  ca_approve request_id = commanded (m.ca_approve request_id)

  unfoldable pub ca_deny : (request_id : Text) → (reason : Text) → Call
  ca_deny request_id reason = commanded (m.ca_deny request_id reason)

  unfoldable pub anchor_remove : (key_name : Text) → Call
  anchor_remove key_name = commanded (m.anchor_remove key_name)

  unfoldable pub anchor_add : (key_name : Text) → (cert_wire : List ℕ) → Call
  anchor_add key_name cert_wire = commanded (m.anchor_add key_name cert_wire)

  unfoldable pub safebag_import :
      (key_name : Text) → (safebag_wire : List ℕ) → (passphrase : List ℕ) → Call
  safebag_import key_name safebag_wire passphrase =
      commanded (m.safebag_import key_name safebag_wire passphrase)
