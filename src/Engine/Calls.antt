-- ===== src/Engine/Calls.antt =====
-- The engine object's calls that reach the mobile engine.
use ndn_mobile.Prelude.{ℕ, ◌%◌, ◌^◌, Bool, true, Option, none, some, ◌⊎◌, inl, inr, ◌++◌}
use ndn_mobile.Text.{Text, codes}
use ndn_mobile.Types.{NdnError, engine, invalid_name}
use ndn_mobile.Discovery.{peer_node_prefix}
use ndn_mobile.Mobile
use ndn_mobile.Mobile.{MobileEngine}
use ndn_mobile.Mobile.Build.{Outcome}
use ndn_mobile.Mobile.Faces.{
  new_app_handle, mount_app_fd, suspend_network_faces, resume_network_faces, attach_wifi_aware,
  attach_ble,
}
use ndn_mobile.Mobile.Routes.{add_producer_region}
use ndn_mobile.Mobile.Bulk.{
  attach_ndp_face, attach_wifi_direct_face, attach_wifi_direct_multicast_face, detach_ndp_face,
}
use ndn_mobile.Engine.{NdnEngineConfig, Texts, build_engine}

module _ (lib : Mobile.Library) (texts : Texts lib) where
  -- The engine until it is shut down, the first app handle until it is taken, the connection of the
  -- consumers once it is open; a handle is its face's id.
  pub record Running : Type 0 where
    pub inner : Option (MobileEngine lib)
    pub default_handle : Option ℕ
    pub consumer_conn : Option ℕ

  abbrev pub Answer : Type 0 → Type 0
  Answer A = (NdnError ⊎ A) × Running

  -- The app's face is the first.
  unfoldable pub started : NdnError ⊎ MobileEngine lib → NdnError ⊎ Running
  started (inl e) = inl e
  started (inr e) = inr (record {
    inner = some (new_app_handle lib e).1;
    default_handle = some (lib.face_id 0);
    consumer_conn = none;
  })

  unfoldable pub new : Outcome lib → NdnEngineConfig → NdnError ⊎ Running
  new out config = started (build_engine lib texts out config)

  unfoldable pub is_shut_down : NdnError
  is_shut_down = engine (codes "engine is shut down")

  -- A call of the mobile engine, if there is one.
  unfoldable pub on_engine :
      {A : Type 0}
      → Option (MobileEngine lib)
      → (MobileEngine lib → (NdnError ⊎ A) × MobileEngine lib)
      → Running
      → Answer A
  on_engine none f r = (inl is_shut_down, r)
  on_engine (some e) f r = let (a, e) = f e in (a, record r { inner = some e })

  unfoldable pub if_running :
      Option (MobileEngine lib) → (MobileEngine lib → MobileEngine lib) → Running → Running
  if_running none f r = r
  if_running (some e) f r = record r { inner = some (f e) }

  unfoldable pub suspend : Running → Running
  suspend r = if_running r.inner (suspend_network_faces lib) r

  unfoldable pub resume : Outcome lib → Running → Running
  resume out r = if_running r.inner (resume_network_faces lib out.opens_multicast out.connects) r

  unfoldable pub shutdown : Running → Running
  shutdown r = record r { inner = none }

  unfoldable pub alloc_app_handle : Running → Answer ℕ
  alloc_app_handle r = on_engine r.inner (λ e. let (id, e) = new_app_handle lib e in (inr id, e)) r

  unfoldable pub take_handle : Option ℕ → Running → Answer ℕ
  take_handle (some h) r = (inr h, record r { default_handle = none })
  take_handle none r = alloc_app_handle r

  unfoldable pub take_consumer_handle : Running → Answer ℕ
  take_consumer_handle r = take_handle r.default_handle r

  unfoldable pub opened : Answer ℕ → Answer ℕ
  opened (inl e, r) = (inl e, r)
  opened (inr h, r) = (inr h, record r { consumer_conn = some h })

  unfoldable pub connection : Option ℕ → Running → Answer ℕ
  connection (some conn) r = (inr conn, r)
  connection none r = opened (take_consumer_handle r)

  -- The connection that the consumer of this call runs over.
  unfoldable pub with_consumer : Running → Answer ℕ
  with_consumer r = connection r.consumer_conn r

  unfoldable pub mounted :
      {A : Type 0} → Text → A → Option ℕ × MobileEngine lib → (NdnError ⊎ A) × MobileEngine lib
  mounted error a (none, e) = (inl (engine error), e)
  mounted error a (some id, e) = (inr a, e)

  unfoldable pub with_id : Text → Option ℕ × MobileEngine lib → (NdnError ⊎ ℕ) × MobileEngine lib
  with_id error (none, e) = (inl (engine error), e)
  with_id error (some id, e) = (inr id, e)

  -- `error` is the system's text where the descriptor is refused.
  unfoldable pub mount_fd : Bool → Text → ℕ → Running → Answer Bool
  mount_fd adopts error fd r =
      on_engine r.inner
        (λ e. mounted (codes "mount app fd: " ++ error) true (mount_app_fd lib adopts fd e)) r

  -- The prefix of a node, and an address.
  unfoldable pub addressed :
      {A : Type 0}
      → Text
      → NdnError
      → Option lib.SocketAddr
      → (lib.Name → lib.SocketAddr → Running → Answer A)
      → Running
      → Answer A
  addressed node_id bad peer f r = elim (texts.parse_name (peer_node_prefix node_id)) [
    | none ↦ (inl (invalid_name (peer_node_prefix node_id)), r)
    | some prefix ↦ elim peer [ none ↦ (inl bad, r) | some addr ↦ f prefix addr r ]
  ]

  unfoldable pub attach_ndp : Bool → Text → Text → ℕ → Text → ℕ → ℕ → Running → Answer ℕ
  attach_ndp adopts error node_id fd peer_ip peer_port scope_id =
      addressed node_id (engine (codes "unparseable NDP peer IPv6 '" ++ peer_ip ++ codes "'"))
        (texts.parse_v6 peer_ip (peer_port % 2 ^ 16) scope_id)
        (λ prefix peer r.
          on_engine r.inner
            (λ e.
              with_id (codes "attach NDP face: " ++ error)
                (attach_ndp_face lib adopts prefix fd peer e))
            r)

  unfoldable pub detach : ℕ → Running → Running
  detach face_id r = if_running r.inner (detach_ndp_face lib face_id) r

  unfoldable pub attach_direct : Bool → Text → Text → ℕ → Text → ℕ → Running → Answer ℕ
  attach_direct adopts error node_id fd peer_ip peer_port =
      addressed node_id
        (engine (codes "unparseable Wi-Fi Direct peer ip '" ++ peer_ip ++ codes "'"))
        (texts.parse_ip peer_ip (peer_port % 2 ^ 16))
        (λ prefix peer r.
          on_engine r.inner
            (λ e.
              with_id (codes "attach Wi-Fi Direct face: " ++ error)
                (attach_wifi_direct_face lib adopts prefix fd peer e))
            r)

  unfoldable pub attach_group : Bool → Text → Option lib.Iface → Text → Running → Answer ℕ
  attach_group opens error none local_ip r =
      (inl (engine (codes "unparseable Wi-Fi Direct local IPv4 '" ++ local_ip ++ codes "'")), r)
  attach_group opens error (some ip) local_ip r =
      on_engine r.inner
        (λ e.
          with_id (codes "attach Wi-Fi Direct multicast face: " ++ error)
            (attach_wifi_direct_multicast_face lib opens ip e))
        r

  unfoldable pub attach_direct_multicast : Bool → Text → Text → Running → Answer ℕ
  attach_direct_multicast opens error local_ip =
      attach_group opens error (texts.parse_iface local_ip) local_ip

  unfoldable pub attach_nan : lib.NanBackend → Running → Answer Bool
  attach_nan backend r = on_engine r.inner (λ e. (inr true, (attach_wifi_aware lib backend e).1)) r

  unfoldable pub attach_adv : lib.AdvBackend → Running → Answer Bool
  attach_adv backend r = on_engine r.inner (λ e. (inr true, (attach_ble lib backend e).1)) r

  unfoldable pub region : Option lib.Name → Running → Running
  region none r = r
  region (some prefix) r = if_running r.inner (add_producer_region lib prefix) r

  -- This node's own prefix, before discovery or an offer board is started.
  unfoldable pub declare_region : Text → Running → Running
  declare_region node_id = region (texts.parse_name (peer_node_prefix node_id))
