-- ===== src/Mobile/Build/Fresh.antt =====
-- What an engine has when it is built: its peers, and pins that agree with its strategies.
use ndn_mobile.Prelude.{
  ℕ, ◌+◌, ◌≡◌, refl, ap, ◌∙◌, subst, arith, Bool, Option, none, some, [], ◌⊎◌, inl, inr, map,
  length,
}
use ndn_mobile.Text.{Text}
use ndn_mobile.Mobile.{Library, MobileEngine, emit, alloc_id, register_routing}
use ndn_mobile.Mobile.Pins.{Keeps, kept, both, IsPinned, resume_peers-Keeps}
use ndn_mobile.Mobile.Routes.{pin_of, contains}
use ndn_mobile.Mobile.Builder.{MobileEngineBuilder}
use ndn_mobile.Mobile.Faces.{resume_peers}
use ndn_mobile.Mobile.Build.{
  multicast_face, nan_face, compute_face, discovery, hooked, rate_limit_table, Outcome, and_then,
  forwarder, persistent_store, emit_all, reserve, reserve_peers, cs_bytes, nan_discovery,
  management,
}
use ndn_mobile.Mobile.Build.Engine.{fresh, services, mount, built, finish, prepare, build}
use ndn_mobile.Mobile.Build.Steps.{
  specs, ids_from, count, reserve_peers_lem, push_peers-listed, push_peers-ids, emit_all-Keeps,
  emit_all-allocated, reserve-allocated, reserve-Keeps, reserve_peers-Keeps, one-AllPlain,
  persistent_store-AllPlain, hooked-AllPlain, discovery-AllPlain, routing-AllPlain, if-AllPlain,
  multicast_face-AllPlain, nan_face-AllPlain, ipc-AllPlain, compute_face-Keeps,
}

module _ (lib : Library) where
  -- The peers with consecutive ids from the k-th on, and the pins in agreement with the strategies.
  pub record IsFresh (b : MobileEngineBuilder lib) (k : ℕ) (e : MobileEngine lib) : Type 0 where
    pub listed : map (λ p. p.1) e.network_peers ≡ specs lib b
    pub ids : map (λ p. p.0) e.network_peers ≡ ids_from lib k (length (specs lib b))
    pub pinned : IsPinned lib e

  fresh-IsPinned : (b : MobileEngineBuilder lib) → IsPinned lib (fresh lib b)
  unfolding fresh pin_of contains
  fresh-IsPinned b = record { measured = λ p. refl; unrooted = refl; distinct = tt }

  prepare-Keeps :
      (out : Outcome lib) (b : MobileEngineBuilder lib)
      → Keeps lib (fresh lib b) (prepare lib out b)
  unfolding prepare forwarder alloc_id emit
  prepare-Keeps out b =
      both lib (emit_all-Keeps lib (forwarder lib b) (fresh lib b) (refl, (refl, tt))) (
        both lib (record { strategies = λ p. refl; pins = refl })
          (emit_all-Keeps lib (persistent_store lib out (cs_bytes lib b) b.persistent_cs_path) _
            (persistent_store-AllPlain lib out (cs_bytes lib b) b.persistent_cs_path)))

  prepare-allocated :
      (out : Outcome lib) (b : MobileEngineBuilder lib) → (prepare lib out b).allocated ≡ 1
  unfolding prepare alloc_id emit fresh
  prepare-allocated out b =
      emit_all-allocated lib (persistent_store lib out (cs_bytes lib b) b.persistent_cs_path) _
      ∙ omega (arith, emit_all-allocated lib (forwarder lib b) (fresh lib b))

  services-Keeps :
      (out : Outcome lib) (b : MobileEngineBuilder lib) (snapshot : Bool) (e : MobileEngine lib)
      → Keeps lib e (services lib out b snapshot e)
  unfolding services management
  services-Keeps out b snapshot e =
      both lib (emit_all-Keeps lib _ e (one-AllPlain lib _ b.tun_config λ c. refl)) (
        both lib (emit_all-Keeps lib _ _ (one-AllPlain lib _ b.observability λ o. refl)) (
          both lib (emit_all-Keeps lib _ _ (ipc-AllPlain lib out b.ipc_listen_path))
            (emit_all-Keeps lib _ _ (if-AllPlain lib b.enable_management _ (refl, (refl, tt))))))

  module _ (out : Outcome lib) (b : MobileEngineBuilder lib) (m c : Option ℕ) where
    mount-IsFresh :
        (snapshot : Bool) (e : MobileEngine lib)
        → IsPinned lib e
        → IsFresh b e.allocated (mount lib out b m c snapshot e)
    unfolding mount
    mount-IsFresh snapshot e i =
        let e1 = emit_all lib (multicast_face lib out b.multicast_iface m) e in
        let s = reserve_peers lib b e1 in
        let e2 = resume_peers lib out.connects s.0 s.1 in
        let e3 = emit_all lib (nan_face lib b.wifi_aware c).0 e2 in
        let e4 = compute_face lib b.compute_prefix e3 in
        let before =
          both lib (emit_all-Keeps lib _ e (multicast_face-AllPlain lib out b.multicast_iface m)) (
            both lib (reserve_peers-Keeps lib b e1)
              (resume_peers-Keeps lib out.connects s.0 s.1)) in
        let after = both lib (emit_all-Keeps lib _ e2 (nan_face-AllPlain lib b.wifi_aware c)) (
          both lib (compute_face-Keeps lib b.compute_prefix e3)
            (services-Keeps out b snapshot e4)) in
        let k = kept lib e _ (both lib before after) i in
        record {
          listed =
              ap (λ q. map (λ p. p.1) q.0) (reserve_peers_lem lib b e1)
              ∙ push_peers-listed lib (specs lib b) ([], e1);
          ids =
              ap (λ q. map (λ p. p.0) q.0) (reserve_peers_lem lib b e1)
              ∙ push_peers-ids lib (specs lib b) ([], e1)
              ∙ ap (λ n. ids_from lib n (length (specs lib b))) (emit_all-allocated lib _ e);
          pinned = record { measured = k.measured; unrooted = k.unrooted; distinct = k.distinct };
        }

    built-inr : (o : Option Text) (e e' : MobileEngine lib) → built lib o e ≡ inr e' → e ≡ e'
    unfolding built
    built-inr none e e' h = ground (arith, h)
    built-inr (some x) e e' h = absurd (ground (arith, h))

    finish-IsFresh :
        (e e' : MobileEngine lib) (nan : Option lib.DiscoveryProtocol)
        → IsPinned lib e
        → finish lib out b m c e nan ≡ inr e'
        → IsFresh b e.allocated e'
    unfolding finish
    finish-IsFresh e e' nan i h =
        let d = discovery lib b.discovery_protocol nan b.node_name in
        let f = emit_all lib d.0 e in
        let g = emit_all lib (map register_routing b.routing_protocols) f in
        let k =
          both lib
            (emit_all-Keeps lib d.0 e (discovery-AllPlain lib b.discovery_protocol nan b.node_name))
            (emit_all-Keeps lib _ f (routing-AllPlain lib b.routing_protocols)) in
        let same =
          emit_all-allocated lib (map register_routing b.routing_protocols) f
          ∙ emit_all-allocated lib d.0 e in
        subst (IsFresh b e.allocated) (built-inr out.build_error _ e' h) (
          subst (λ n. IsFresh b n (mount lib out b m c d.1 g)) same
            (mount-IsFresh d.1 g (kept lib e g k i)))

    and_then-IsFresh :
        (e e' : MobileEngine lib) (r : Text ⊎ Option lib.DiscoveryProtocol)
        → IsPinned lib e
        → and_then lib r (finish lib out b m c e) ≡ inr e'
        → IsFresh b e.allocated e'
    unfolding and_then
    and_then-IsFresh e e' (inl x) i h = absurd (ground (arith, h))
    and_then-IsFresh e e' (inr nan) i h = finish-IsFresh e e' nan i h

  -- An engine that is built, however the outside answers, has exactly the peers that its builder was
  -- given, in their order, under consecutive face ids after the app's, the multicast and the Wi-Fi
  -- Aware faces'; a prefix runs the measured strategy exactly when it is pinned, the root is not
  -- pinned, and no prefix is pinned twice.
  pub build-IsFresh :
      (out : Outcome lib) (b : MobileEngineBuilder lib) (e : MobileEngine lib)
      → build lib out b ≡ inr e
      → IsFresh b (1 + count lib b.multicast_iface + count lib b.wifi_aware) e
  unfolding build
  build-IsFresh out b e h =
      let start = prepare lib out b in
      let m = reserve lib b.multicast_iface start in
      let c = reserve lib b.wifi_aware m.1 in
      let hook = hooked lib (rate_limit_table lib b.rate_limit) in
      let k = both lib (prepare-Keeps out b) (
        both lib (reserve-Keeps lib b.multicast_iface start) (
          both lib (reserve-Keeps lib b.wifi_aware m.1) (
            emit_all-Keeps lib hook c.1
              (hooked-AllPlain lib (rate_limit_table lib b.rate_limit))))) in
      let reserved = reserve-allocated lib b.multicast_iface start in
      let both_reserved = reserve-allocated lib b.wifi_aware m.1 in
      let hooked_too = emit_all-allocated lib hook c.1 in
      subst (λ n. IsFresh b n e)
        (omega (arith, prepare-allocated out b, reserved, both_reserved, hooked_too))
        (and_then-IsFresh out b m.0 c.0 (emit_all lib hook c.1) e
          (nan_discovery lib b.wifi_aware c.0) (kept lib _ _ k (fresh-IsPinned b)) h)
