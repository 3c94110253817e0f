-- ===== src/Mobile/Pins.antt =====
-- The strategy of a prefix and its pin.
mod Map
pub mod Run
use ndn_mobile.Prelude.{
  ℕ, ◌≡◌, ◌≢◌, ◌↔◌, refl, sym, ap, ◌∙◌, subst, arith, Bool, true, false, not, ◌==◌, Bool-cases,
  if◌then◌else◌, Option, none, some, List, [], ◌∷◌, inl, inr,
}
use ndn_mobile.Text.{Text}
use ndn_mobile.Mobile.{
  Library, FaceKind, PeerSpec, Token, Strategy, multicast_strategy, measured_strategy, Effect,
  set_strategy, MobileEngine, emit, alloc_id,
}
use ndn_mobile.Mobile.Faces.{
  build_peer_face, resume_multicast, resume_peers, resume_nan, resume_ble, resume_network_faces,
  ensure_mesh_strategy, id_of, attach_wifi_aware, attach_ble, new_app_handle, mount_app_fd,
  register_prefix, suspend_network_faces,
}
use ndn_mobile.Mobile.Routes.{
  pin_of, contains, note_radio, note_kind, note_peer_route, radio_id, kind_of, route_to_multicast,
  add_route, route_to_peer, add_producer_region,
}
use ndn_mobile.Mobile.Bulk.{
  mount_bulk, pin, attach_udp_bulk_face, attach_ndp_face, attach_wifi_direct_face,
  attach_infra_tunnel_face, attach_infra_tunnel_fd, attach_wifi_direct_multicast_face, retain,
  reverted, revert, detach_ndp_face,
}
use Map.{IsDistinct, member, contains-pin, pin-IsDistinct, contains-retain, retain-IsDistinct}
use ndn_mobile.Mobile.Calls.{
  Call, app_handle, app_fd, registers, route, peer_route, multicast_route, noted, region, suspend,
  resume, radio, adv_radio, ndp, direct, tunnel, tunnel_fd, direct_group, detach, step, run,
}

module _ (lib : Library) where
  open lib use {Name, same_name}

  -- What an effect makes of the strategies.
  abbrev pub set_by : Effect lib → Option (Name × Strategy)
  set_by (set_strategy prefix s) = some (prefix, s)
  set_by _ = none

  abbrev pub latest : Name → Option (Name × Strategy) → Option Strategy → Option Strategy
  latest p none rest = rest
  latest p (some (prefix, s)) rest = if same_name prefix p then some s else rest

  -- The strategy that a prefix was given last.
  abbrev pub strategy_of : Name → List (Effect lib) → Option Strategy
  strategy_of p [] = none
  strategy_of p (x ∷ xs) = latest p (set_by x) (strategy_of p xs)

  abbrev pub is_measured : Option Strategy → Bool
  is_measured (some measured_strategy) = true
  is_measured _ = false

  abbrev pub is_pinned : Name → MobileEngine lib → Bool
  is_pinned p e = contains lib (pin_of lib p e.bulk_pinned)

  pub record IsPinned (e : MobileEngine lib) : Type 0 where
    pub measured : (p : Name) → is_measured (strategy_of p e.effects) ≡ is_pinned p e
    pub unrooted : is_pinned lib.root e ≡ false
    pub distinct : IsDistinct lib e.bulk_pinned

  -- Neither strategies nor pins change.
  pub record Keeps (e e' : MobileEngine lib) : Type 0 where
    pub strategies : (p : Name) → strategy_of p e'.effects ≡ strategy_of p e.effects
    pub pins : e'.bulk_pinned ≡ e.bulk_pinned

  pub kept : (e e' : MobileEngine lib) → Keeps e e' → IsPinned e → IsPinned e'
  kept e e' k i = record {
    measured = λ p.
        ap is_measured (k.strategies p)
        ∙ i.measured p
        ∙ ap (λ t. contains lib (pin_of lib p t)) (sym k.pins);
    unrooted = ap (λ t. contains lib (pin_of lib lib.root t)) k.pins ∙ i.unrooted;
    distinct = subst (IsDistinct lib) (sym k.pins) i.distinct;
  }

  pub stays : (e : MobileEngine lib) → Keeps e e
  stays e = record { strategies = λ p. refl; pins = refl }

  pub both : {e f g : MobileEngine lib} → Keeps e f → Keeps f g → Keeps e g
  both k l = record { strategies = λ p. l.strategies p ∙ k.strategies p; pins = l.pins ∙ k.pins }

  build_peer_face-Keeps :
      (connects : ℕ → PeerSpec lib → Bool) (id : ℕ) (spec : PeerSpec lib) (token : Token)
      (e : MobileEngine lib)
      → Keeps e (build_peer_face lib connects id spec token e)
  unfolding build_peer_face emit
  build_peer_face-Keeps connects id spec token e = elim (Bool-cases (connects id spec)) [
    | inl h ↦ simp h (record { strategies = λ p. refl; pins = refl })
    | inr h ↦ simp h (record { strategies = λ p. refl; pins = refl })
  ]

  pub resume_peers-Keeps :
      (connects : ℕ → PeerSpec lib → Bool) (ps : List (ℕ × PeerSpec lib)) (e : MobileEngine lib)
      → Keeps e (resume_peers lib connects ps e)
  unfolding resume_peers
  resume_peers-Keeps connects [] e = stays e
  resume_peers-Keeps connects ((id, spec) ∷ ps) e =
      both (build_peer_face-Keeps connects id spec _ e) (resume_peers-Keeps connects ps _)

  resume_multicast-Keeps :
      (opens : Bool) (o : Option lib.Iface) (e : MobileEngine lib)
      → Keeps e (resume_multicast lib opens o e)
  unfolding resume_multicast emit
  resume_multicast-Keeps opens none e = stays e
  resume_multicast-Keeps true (some iface) e = record { strategies = λ p. refl; pins = refl }
  resume_multicast-Keeps false (some iface) e = stays e

  resume_nan-Keeps :
      (o : Option (ℕ × lib.NanBackend)) (e : MobileEngine lib) → Keeps e (resume_nan lib o e)
  unfolding resume_nan emit
  resume_nan-Keeps none e = stays e
  resume_nan-Keeps (some b) e = record { strategies = λ p. refl; pins = refl }

  resume_ble-Keeps :
      (o : Option (ℕ × lib.AdvBackend)) (e : MobileEngine lib) → Keeps e (resume_ble lib o e)
  unfolding resume_ble emit
  resume_ble-Keeps none e = stays e
  resume_ble-Keeps (some b) e = record { strategies = λ p. refl; pins = refl }

  pub resume-Keeps :
      (opens : Bool) (connects : ℕ → PeerSpec lib → Bool) (e : MobileEngine lib)
      → Keeps e (resume_network_faces lib opens connects e)
  unfolding resume_network_faces
  resume-Keeps opens connects e =
      both
        (both
          (both (resume_multicast-Keeps opens e.multicast_iface e)
            (resume_peers-Keeps connects _ _))
          (resume_nan-Keeps _ _))
        (resume_ble-Keeps _ _)

  strategy_of-revert :
      (p : Name) (ps : List Name) (e : MobileEngine lib)
      → strategy_of p (revert lib ps e).effects
        ≡ (if member lib p ps then some multicast_strategy else strategy_of p e.effects)
  unfolding revert emit
  strategy_of-revert p [] e = refl
  strategy_of-revert p (q ∷ qs) e =
      strategy_of-revert p qs (emit lib (set_strategy q multicast_strategy) e)
      ∙ elim (Bool-cases (same_name q p)) [
        | inl h ↦ elim (Bool-cases (member lib p qs)) [
          | inl k ↦ rw (h, k) refl
          | inr k ↦ rw (h, k) refl
        ]
        | inr h ↦ rw h refl
      ]

  bulk_pinned-revert :
      (ps : List Name) (e : MobileEngine lib) → (revert lib ps e).bulk_pinned ≡ e.bulk_pinned
  unfolding revert emit
  bulk_pinned-revert [] e = refl
  bulk_pinned-revert (q ∷ qs) e = bulk_pinned-revert qs _

  module _ (same_iff : (a b : Name) → (same_name a b ≡ true) ↔ (a ≡ b)) where
    -- A prefix other than the pinned ones gets the multicast strategy.
    pub multicast-IsPinned :
        (prefix : Name) (e : MobileEngine lib)
        → is_pinned prefix e ≡ false
        → IsPinned e
        → IsPinned (emit lib (set_strategy prefix multicast_strategy) e)
    unfolding emit
    multicast-IsPinned prefix e n i = record {
      measured = λ p. elim (Bool-cases (same_name prefix p)) [
        | inl h ↦ rw h (sym (subst (λ t. is_pinned t e ≡ false) ((same_iff prefix p).0 h) n))
        | inr h ↦ rw h (i.measured p)
      ];
      unrooted = i.unrooted;
      distinct = i.distinct;
    }

    pub note_radio-IsPinned :
        (prefix : Name) (kind : FaceKind) (o : Option ℕ) (e : MobileEngine lib)
        → IsPinned e
        → IsPinned (note_radio lib prefix kind o e)
    unfolding note_radio emit
    note_radio-IsPinned prefix kind none e i = i
    note_radio-IsPinned prefix kind (some id) e i = elim (Bool-cases (is_pinned prefix e)) [
      | inl h ↦
          simp h (record { measured = i.measured; unrooted = i.unrooted; distinct = i.distinct })
      | inr h ↦ simp h (
          multicast-IsPinned prefix _ h
            (record { measured = i.measured; unrooted = i.unrooted; distinct = i.distinct }))
    ]

    -- A mesh interface puts the root, which is not pinned, under the multicast strategy.
    pub ensure_mesh-IsPinned :
        (e : MobileEngine lib) → IsPinned e → IsPinned (ensure_mesh_strategy lib e)
    unfolding ensure_mesh_strategy
    ensure_mesh-IsPinned e i = multicast-IsPinned lib.root e i.unrooted i

    -- Another prefix than the root is pinned as it is put under the measured strategy.
    pub mount_bulk-IsPinned :
        (prefix : Name) (fd : ℕ) (peer : lib.SocketAddr) (kind : FaceKind) (id : ℕ)
        (e : MobileEngine lib)
        → same_name prefix lib.root ≡ false
        → IsPinned e
        → IsPinned (mount_bulk lib prefix fd peer kind id e)
    unfolding mount_bulk emit
    mount_bulk-IsPinned prefix fd peer kind id e n i = record {
      measured = λ p. elim (Bool-cases (same_name prefix p)) [
        | inl h ↦ rw h (sym (contains-pin lib same_iff p prefix id e.bulk_pinned ∙ rw h refl))
        | inr h ↦
            rw h
              (i.measured p ∙ sym (contains-pin lib same_iff p prefix id e.bulk_pinned ∙ rw h refl))
      ];
      unrooted = contains-pin lib same_iff lib.root prefix id e.bulk_pinned ∙ rw n i.unrooted;
      distinct = pin-IsDistinct lib same_iff prefix id e.bulk_pinned i.distinct;
    }

    is_pinned-detach :
        (p : Name) (id : ℕ) (e : MobileEngine lib)
        → IsPinned e
        → is_pinned p (detach_ndp_face lib id e)
          ≡ (if member lib p (reverted lib id e.bulk_pinned) then false else is_pinned p e)
    unfolding detach_ndp_face emit
    is_pinned-detach p id e i =
        ap (λ t. contains lib (pin_of lib p t))
          (bulk_pinned-revert (reverted lib id e.bulk_pinned) _)
        ∙ contains-retain lib same_iff p id e.bulk_pinned i.distinct

    -- The prefixes whose pins go are reverted, and no others.
    pub detach-IsPinned :
        (id : ℕ) (e : MobileEngine lib) → IsPinned e → IsPinned (detach_ndp_face lib id e)
    unfolding detach_ndp_face emit
    detach-IsPinned id e i =
        let ps = reverted lib id e.bulk_pinned in
        record {
          measured = λ p.
              ap is_measured (strategy_of-revert p ps _) ∙ elim (Bool-cases (member lib p ps)) [
                | inl h ↦ rw h (sym (is_pinned-detach p id e i ∙ rw h refl))
                | inr h ↦ rw h (i.measured p ∙ sym (is_pinned-detach p id e i ∙ rw h refl))
              ];
          unrooted = is_pinned-detach lib.root id e i ∙ elim (Bool-cases (member lib lib.root ps)) [
            | inl h ↦ rw h refl
            | inr h ↦ rw h i.unrooted
          ];
          distinct =
              subst (IsDistinct lib) (sym (bulk_pinned-revert ps _))
                (retain-IsDistinct lib same_iff id e.bulk_pinned i.distinct);
        }
