-- ===== src/Engine/Moves.antt =====
-- What every call of the engine object keeps of its mobile engine and its connections.
use ndn_mobile.Prelude.{
  ℕ, ◌≤◌, ◌≡◌, refl, subst, sym, arith, Bool, true, Option, none, some, ◌⊎◌, inl, inr, Option-cases,
}
use ndn_mobile.Text.{Text}
use ndn_mobile.Types.{NdnError}
use ndn_mobile.Discovery.{peer_node_prefix}
use ndn_mobile.Mobile
use ndn_mobile.Mobile.{MobileEngine}
use ndn_mobile.Mobile.Allocation.{
  Grows, new_app_handle-Grows, mount_app_fd-Grows, suspend-Grows, resume-Grows,
  attach_wifi_aware-Grows, attach_ble-Grows, attach_ndp_face-Grows, attach_wifi_direct_face-Grows,
  attach_wifi_direct_multicast_face-Grows, detach_ndp_face-Grows, add_producer_region-Grows,
}
use ndn_mobile.Mobile.Build.{Outcome}
use ndn_mobile.Engine.{Texts}
use ndn_mobile.Engine.Calls.{
  Running, Answer, on_engine, if_running, suspend, resume, shutdown, alloc_app_handle, take_handle,
  take_consumer_handle, opened, connection, with_consumer, mounted, with_id, mount_fd, addressed,
  attach_ndp, detach, attach_direct, attach_group, attach_direct_multicast, attach_nan, attach_adv,
  region, declare_region,
}

module _ (lib : Mobile.Library) (texts : Texts lib) where
  -- The app's own face, which the engine is built with.
  abbrev pub primary : ℕ
  primary = lib.face_id 0

  abbrev pub Ready : Option ℕ → Option ℕ → Type 0
  Ready none handle = handle ≡ some primary
  Ready (some conn) handle = conn ≡ primary

  -- The consumers' connection is that of the app's face, or will be.
  abbrev pub IsReady : Running lib texts → Type 0
  IsReady r = Ready r.consumer_conn r.default_handle

  abbrev pub Above : ℕ → Option (MobileEngine lib) → Type 0
  Above lo none = Unit
  Above lo (some e) = lo ≤ e.allocated

  abbrev pub IsDown : Option (MobileEngine lib) → Type 0
  IsDown none = Unit
  IsDown (some e) = ⊥

  pub record Moves (r r' : Running lib texts) : Type 0 where
    pub ready : IsReady r → IsReady r'
    pub above : (lo : ℕ) → Above lo r.inner → Above lo r'.inner
    pub down : IsDown r.inner → IsDown r'.inner

  pub stays : (r : Running lib texts) → Moves r r
  stays r = record { ready = λ i. i; above = λ lo a. a; down = λ d. d }

  pub both : (r s t : Running lib texts) → Moves r s → Moves s t → Moves r t
  both r s t m n = record {
    ready = λ i. n.ready (m.ready i);
    above = λ lo a. n.above lo (m.above lo a);
    down = λ d. n.down (m.down d);
  }

  -- The mobile engine is replaced by one that has allocated no fewer ids.
  pub grown-Moves :
      (r : Running lib texts) (e e' : MobileEngine lib)
      → r.inner ≡ some e
      → Grows lib e e'
      → Moves r (record r { inner = some e' })
  grown-Moves r e e' q g = record {
    ready = λ i. i;
    above = λ lo a. let b : lo ≤ e.allocated = subst (Above lo) q a in omega arith;
    down = λ d. absurd (subst IsDown q d);
  }

  module _ {A : Type 0} where
    pub on_engine-Moves :
        (o : Option (MobileEngine lib)) (f : MobileEngine lib → (NdnError ⊎ A) × MobileEngine lib)
        (r : Running lib texts)
        → r.inner ≡ o
        → ((e : MobileEngine lib) → Grows lib e (f e).1)
        → Moves r (on_engine lib texts o f r).1
    unfolding on_engine
    on_engine-Moves none f r q g = stays r
    on_engine-Moves (some e) f r q g = grown-Moves r e (f e).1 q (g e)

  pub if_running-Moves :
      (o : Option (MobileEngine lib)) (f : MobileEngine lib → MobileEngine lib)
      (r : Running lib texts)
      → r.inner ≡ o
      → ((e : MobileEngine lib) → Grows lib e (f e))
      → Moves r (if_running lib texts o f r)
  unfolding if_running
  if_running-Moves none f r q g = stays r
  if_running-Moves (some e) f r q g = grown-Moves r e (f e) q (g e)

  pub suspend-Moves : (r : Running lib texts) → Moves r (suspend lib texts r)
  unfolding suspend
  suspend-Moves r = if_running-Moves r.inner _ r refl (suspend-Grows lib)

  pub resume-Moves : (out : Outcome lib) (r : Running lib texts) → Moves r (resume lib texts out r)
  unfolding resume
  resume-Moves out r =
      if_running-Moves r.inner _ r refl (resume-Grows lib out.opens_multicast out.connects)

  pub shutdown-Moves : (r : Running lib texts) → Moves r (shutdown lib texts r)
  unfolding shutdown
  shutdown-Moves r = record { ready = λ i. i; above = λ lo a. tt; down = λ d. tt }

  pub alloc_app_handle-Moves : (r : Running lib texts) → Moves r (alloc_app_handle lib texts r).1
  unfolding alloc_app_handle
  alloc_app_handle-Moves r = on_engine-Moves r.inner _ r refl (new_app_handle-Grows lib)

  -- The app's face is given, and stays the one that is shared.
  abbrev pub Given : Running lib texts → Answer lib texts ℕ → Type 0
  Given r x = (x.0 ≡ inr primary) × (x.1.inner ≡ r.inner) × IsReady x.1

  take-Given :
      (handle : Option ℕ) (r : Running lib texts)
      → handle ≡ some primary
      → Given r (opened lib texts (take_handle lib texts handle r))
  unfolding take_handle opened
  take-Given (some face) r q = (cc, refl, cc)
  take-Given none r q = absurd (cc)

  connection-Given :
      (conn : Option ℕ) (r : Running lib texts)
      → IsReady r
      → Ready conn r.default_handle
      → Given r (connection lib texts conn r)
  unfolding connection take_consumer_handle
  connection-Given (some face) r i q = (cc, refl, i)
  connection-Given none r i q = take-Given r.default_handle r q

  -- Where the app's face is still there or shared, consumers run over it.
  pub with_consumer-Given :
      (r : Running lib texts) → IsReady r → Given r (with_consumer lib texts r)
  unfolding with_consumer
  with_consumer-Given r i = connection-Given r.consumer_conn r i i

  pub with_consumer-Moves :
      (r : Running lib texts) → IsReady r → Moves r (with_consumer lib texts r).1
  with_consumer-Moves r i =
      let (given, kept, still) = with_consumer-Given r i in
      record {
        ready = λ _. still;
        above = λ lo a. subst (Above lo) (sym kept) a;
        down = λ d. subst IsDown (sym kept) d;
      }

  mounted_lem :
      {A : Type 0} (error : Text) (a : A) (x : Option ℕ × MobileEngine lib)
      → (mounted lib texts error a x).1 ≡ x.1
  unfolding mounted
  mounted_lem error a (none, e) = refl
  mounted_lem error a (some id, e) = refl

  with_id_lem :
      (error : Text) (x : Option ℕ × MobileEngine lib) → (with_id lib texts error x).1 ≡ x.1
  unfolding with_id
  with_id_lem error (none, e) = refl
  with_id_lem error (some id, e) = refl

  pub mount_fd-Moves :
      (adopts : Bool) (error : Text) (fd : ℕ) (r : Running lib texts)
      → Moves r (mount_fd lib texts adopts error fd r).1
  unfolding mount_fd
  mount_fd-Moves adopts error fd r =
      on_engine-Moves r.inner _ r refl
        (λ e. subst (Grows lib e) (sym (mounted_lem _ true _)) (mount_app_fd-Grows lib adopts fd e))

  addressed-Moves :
      {A : Type 0} (node_id : Text) (bad : NdnError) (peer : Option lib.SocketAddr)
      (f : lib.Name → lib.SocketAddr → Running lib texts → Answer lib texts A)
      (r : Running lib texts)
      → ((prefix : lib.Name) (addr : lib.SocketAddr) → Moves r (f prefix addr r).1)
      → Moves r (addressed lib texts node_id bad peer f r).1
  unfolding addressed
  addressed-Moves node_id bad peer f r m =
      elim (Option-cases (texts.parse_name (peer_node_prefix node_id))) [
        | inl q ↦ rw (q, addressed) (stays r)
        | inr (prefix, q) ↦ elim (Option-cases peer) [
          | inl q' ↦ rw (q, q', addressed) (stays r)
          | inr (addr, q') ↦ rw (q, q', addressed) (m prefix addr)
        ]
      ]

  pub attach_ndp-Moves :
      (adopts : Bool) (error node_id : Text) (fd : ℕ) (peer_ip : Text) (peer_port scope_id : ℕ)
      (r : Running lib texts)
      → Moves r (attach_ndp lib texts adopts error node_id fd peer_ip peer_port scope_id r).1
  unfolding attach_ndp
  attach_ndp-Moves adopts error node_id fd peer_ip peer_port scope_id r =
      addressed-Moves node_id _ _ _ r λ prefix addr. on_engine-Moves r.inner _ r refl (λ e.
        subst (Grows lib e) (sym (with_id_lem _ _))
          (attach_ndp_face-Grows lib adopts prefix fd addr e))

  pub attach_direct-Moves :
      (adopts : Bool) (error node_id : Text) (fd : ℕ) (peer_ip : Text) (peer_port : ℕ)
      (r : Running lib texts)
      → Moves r (attach_direct lib texts adopts error node_id fd peer_ip peer_port r).1
  unfolding attach_direct
  attach_direct-Moves adopts error node_id fd peer_ip peer_port r =
      addressed-Moves node_id _ _ _ r λ prefix addr. on_engine-Moves r.inner _ r refl (λ e.
        subst (Grows lib e) (sym (with_id_lem _ _))
          (attach_wifi_direct_face-Grows lib adopts prefix fd addr e))

  attach_group-Moves :
      (opens : Bool) (error : Text) (ip : Option lib.Iface) (local_ip : Text)
      (r : Running lib texts)
      → Moves r (attach_group lib texts opens error ip local_ip r).1
  unfolding attach_group
  attach_group-Moves opens error none local_ip r = stays r
  attach_group-Moves opens error (some ip) local_ip r = on_engine-Moves r.inner _ r refl (λ e.
      subst (Grows lib e) (sym (with_id_lem _ _))
        (attach_wifi_direct_multicast_face-Grows lib opens ip e))

  pub attach_direct_multicast-Moves :
      (opens : Bool) (error local_ip : Text) (r : Running lib texts)
      → Moves r (attach_direct_multicast lib texts opens error local_ip r).1
  unfolding attach_direct_multicast
  attach_direct_multicast-Moves opens error local_ip =
      attach_group-Moves opens error (texts.parse_iface local_ip) local_ip

  pub detach-Moves : (id : ℕ) (r : Running lib texts) → Moves r (detach lib texts id r)
  unfolding detach
  detach-Moves id r = if_running-Moves r.inner _ r refl (detach_ndp_face-Grows lib id)

  pub attach_nan-Moves :
      (backend : lib.NanBackend) (r : Running lib texts)
      → Moves r (attach_nan lib texts backend r).1
  unfolding attach_nan
  attach_nan-Moves backend r =
      on_engine-Moves r.inner _ r refl (attach_wifi_aware-Grows lib backend)

  pub attach_adv-Moves :
      (backend : lib.AdvBackend) (r : Running lib texts)
      → Moves r (attach_adv lib texts backend r).1
  unfolding attach_adv
  attach_adv-Moves backend r = on_engine-Moves r.inner _ r refl (attach_ble-Grows lib backend)

  region-Moves :
      (prefix : Option lib.Name) (r : Running lib texts) → Moves r (region lib texts prefix r)
  unfolding region
  region-Moves none r = stays r
  region-Moves (some prefix) r =
      if_running-Moves r.inner _ r refl (add_producer_region-Grows lib prefix)

  pub declare_region-Moves :
      (node_id : Text) (r : Running lib texts) → Moves r (declare_region lib texts node_id r)
  unfolding declare_region
  declare_region-Moves node_id = region-Moves (texts.parse_name (peer_node_prefix node_id))
