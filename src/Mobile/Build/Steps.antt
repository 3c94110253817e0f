-- ===== src/Mobile/Build/Steps.antt =====
-- The steps of the build: the ids that they allocate, and that none sets a prefix's strategy.
use ndn_mobile.Prelude.{
  ℕ, zero, suc, ◌+◌, ◌≡◌, refl, sym, ap, ◌∙◌, arith, Bool, true, false, Option, none, some, List,
  [], ◌∷◌, ◌++◌, map, length, subst, if◌then◌else◌, map-append, append_assoc, append-nil,
}
use ndn_mobile.Text.{Text}
use ndn_mobile.Mobile.Pins.{Keeps, stays, both, set_by}
use ndn_mobile.Mobile.{
  register_routing, Library, PeerSpec, udp_unicast, tcp, web_socket, MobileEngine, emit, alloc_id,
  Effect,
}
use ndn_mobile.Mobile.Builder.{MobileEngineBuilder, WifiAwareCfg}
use ndn_mobile.Mobile.Build.{
  one, opened, persistent_store, hooked, discovery, multicast_face, nan_face, ipc_listener,
  compute_face, Outcome, emit_all, reserve, push_peers, reserve_peers, serial_spec,
  web_transport_spec,
}

module _ (lib : Library) where
  abbrev pub Pushed : Type 0
  Pushed = List (ℕ × PeerSpec lib) × MobileEngine lib

  -- The peers that the builder was given, in the order of their kinds.
  abbrev pub specs : MobileEngineBuilder lib → List (PeerSpec lib)
  specs b =
      map udp_unicast b.unicast_peers
      ++ map tcp b.tcp_peers
      ++ map web_socket b.ws_peers
      ++ map (serial_spec lib) b.serial_ports
      ++ map (web_transport_spec lib) b.webtransport_peers

  -- `n` consecutive ids from the k-th allocation on.
  abbrev pub ids_from : ℕ → ℕ → List ℕ
  ids_from k zero = []
  ids_from k (suc n) = lib.face_id k ∷ ids_from (suc k) n

  push_peers-append :
      (xs ys : List (PeerSpec lib)) (s : Pushed)
      → push_peers lib (xs ++ ys) s ≡ push_peers lib ys (push_peers lib xs s)
  unfolding push_peers
  push_peers-append [] ys s = refl
  push_peers-append (x ∷ xs) ys s = push_peers-append xs ys _

  push_five :
      (u t w s x : List (PeerSpec lib)) (q : Pushed)
      → push_peers lib (u ++ t ++ w ++ s ++ x) q
        ≡ push_peers lib x
            (push_peers lib s (push_peers lib w (push_peers lib t (push_peers lib u q))))
  push_five u t w s x q =
      push_peers-append (u ++ t ++ w ++ s) x q
      ∙ ap (push_peers lib x) (
          push_peers-append (u ++ t ++ w) s q
          ∙ ap (push_peers lib s)
              (push_peers-append (u ++ t) w q ∙ ap (push_peers lib w) (push_peers-append u t q)))

  pub reserve_peers_lem :
      (b : MobileEngineBuilder lib) (e : MobileEngine lib)
      → reserve_peers lib b e ≡ push_peers lib (specs b) ([], e)
  unfolding reserve_peers
  reserve_peers_lem b e = sym (push_five _ _ _ _ _ ([], e))

  pub push_peers-listed :
      (xs : List (PeerSpec lib)) (s : Pushed)
      → map (λ p. p.1) (push_peers lib xs s).0 ≡ map (λ p. p.1) s.0 ++ xs
  unfolding push_peers
  push_peers-listed [] s = sym (append-nil _)
  push_peers-listed (x ∷ xs) (peers, e) =
      push_peers-listed xs _
      ∙ ap (λ l. l ++ xs) (map-append (λ p. p.1) peers _)
      ∙ append_assoc (map (λ p. p.1) peers) (x ∷ []) xs

  pub push_peers-ids :
      (xs : List (PeerSpec lib)) (s : Pushed)
      → map (λ p. p.0) (push_peers lib xs s).0
        ≡ map (λ p. p.0) s.0 ++ ids_from s.1.allocated (length xs)
  unfolding push_peers alloc_id
  push_peers-ids [] s = sym (append-nil _)
  push_peers-ids (x ∷ xs) (peers, e) =
      push_peers-ids xs _
      ∙ ap (λ l. l ++ ids_from (suc e.allocated) (length xs)) (map-append (λ p. p.0) peers _)
      ∙ append_assoc (map (λ p. p.0) peers) (lib.face_id e.allocated ∷ []) _

  -- No effect sets the strategy of a prefix.
  abbrev pub AllPlain : List (Effect lib) → Type 0
  AllPlain [] = Unit
  AllPlain (x ∷ xs) = (set_by lib x ≡ none) × AllPlain xs

  emit-Keeps :
      (x : Effect lib) (e : MobileEngine lib) → set_by lib x ≡ none → Keeps lib e (emit lib x e)
  unfolding emit
  emit-Keeps x e h = record { strategies = λ p. rw h refl; pins = refl }

  pub emit_all-Keeps :
      (xs : List (Effect lib)) (e : MobileEngine lib)
      → AllPlain xs
      → Keeps lib e (emit_all lib xs e)
  unfolding emit_all
  emit_all-Keeps [] e a = stays lib e
  emit_all-Keeps (x ∷ xs) e a = both lib (emit-Keeps x e a.0) (emit_all-Keeps xs _ a.1)

  pub emit_all-allocated :
      (xs : List (Effect lib)) (e : MobileEngine lib) → (emit_all lib xs e).allocated ≡ e.allocated
  unfolding emit_all emit
  emit_all-allocated [] e = refl
  emit_all-allocated (x ∷ xs) e = emit_all-allocated xs _

  abbrev pub count : {A : Type 0} → Option A → ℕ
  count none = 0
  count (some a) = 1

  pub reserve-allocated :
      {A : Type 0} (o : Option A) (e : MobileEngine lib)
      → (reserve lib o e).1.allocated ≡ e.allocated + count o
  unfolding reserve alloc_id
  reserve-allocated none e = omega arith
  reserve-allocated (some a) e = omega arith

  pub reserve-Keeps :
      {A : Type 0} (o : Option A) (e : MobileEngine lib) → Keeps lib e (reserve lib o e).1
  unfolding reserve alloc_id
  reserve-Keeps none e = stays lib e
  reserve-Keeps (some a) e = record { strategies = λ p. refl; pins = refl }

  push_peers-Keeps : (xs : List (PeerSpec lib)) (s : Pushed) → Keeps lib s.1 (push_peers lib xs s).1
  unfolding push_peers alloc_id
  push_peers-Keeps [] s = stays lib s.1
  push_peers-Keeps (x ∷ xs) (peers, e) =
      both lib (record { strategies = λ p. refl; pins = refl }) (push_peers-Keeps xs _)

  pub reserve_peers-Keeps :
      (b : MobileEngineBuilder lib) (e : MobileEngine lib) → Keeps lib e (reserve_peers lib b e).1
  reserve_peers-Keeps b e =
      subst (λ s. Keeps lib e s.1) (sym (reserve_peers_lem b e))
        (push_peers-Keeps (specs b) ([], e))

  pub one-AllPlain :
      {A : Type 0} (f : A → Effect lib) (o : Option A)
      → ((a : A) → set_by lib (f a) ≡ none)
      → AllPlain (one lib f o)
  unfolding one
  one-AllPlain f none h = tt
  one-AllPlain f (some a) h = (h a, tt)

  store-AllPlain : (o : Option lib.Store) → AllPlain (opened lib o)
  unfolding opened
  store-AllPlain none = tt
  store-AllPlain (some cs) = (refl, tt)

  pub persistent_store-AllPlain :
      (out : Outcome lib) (n : ℕ) (o : Option Text) → AllPlain (persistent_store lib out n o)
  unfolding persistent_store
  persistent_store-AllPlain out n none = tt
  persistent_store-AllPlain out n (some path) = store-AllPlain (out.opens_store path n)

  pub hooked-AllPlain : (o : Option lib.RateLimitTable) → AllPlain (hooked lib o)
  unfolding hooked
  hooked-AllPlain none = tt
  hooked-AllPlain (some table) = (refl, tt)

  pub discovery-AllPlain :
      (o n : Option lib.DiscoveryProtocol) (name : Option lib.Name)
      → AllPlain (discovery lib o n name).0
  unfolding discovery
  discovery-AllPlain (some proto) n name = (refl, tt)
  discovery-AllPlain none (some proto) name = (refl, tt)
  discovery-AllPlain none none (some name) = (refl, tt)
  discovery-AllPlain none none none = tt

  pub routing-AllPlain : (ps : List lib.RoutingProtocol) → AllPlain (map register_routing ps)
  routing-AllPlain [] = tt
  routing-AllPlain (proto ∷ ps) = (refl, routing-AllPlain ps)

  pub if-AllPlain :
      (c : Bool) (xs : List (Effect lib)) → AllPlain xs → AllPlain (if c then xs else [])
  if-AllPlain true xs a = a
  if-AllPlain false xs a = tt

  pub multicast_face-AllPlain :
      (out : Outcome lib) (o : Option lib.Iface) (id : Option ℕ)
      → AllPlain (multicast_face lib out o id)
  unfolding multicast_face
  multicast_face-AllPlain out (some iface) (some id) = if-AllPlain out.opens_multicast _ (refl, tt)
  multicast_face-AllPlain out (some iface) none = tt
  multicast_face-AllPlain out none id = tt

  pub nan_face-AllPlain :
      (o : Option (WifiAwareCfg lib)) (id : Option ℕ) → AllPlain (nan_face lib o id).0
  unfolding nan_face
  nan_face-AllPlain (some cfg) (some id) = (refl, tt)
  nan_face-AllPlain (some cfg) none = tt
  nan_face-AllPlain none id = tt

  pub ipc-AllPlain : (out : Outcome lib) (o : Option Text) → AllPlain (ipc_listener lib out o)
  unfolding ipc_listener
  ipc-AllPlain out none = tt
  ipc-AllPlain out (some path) = if-AllPlain (out.binds path) _ (refl, tt)

  pub compute_face-Keeps :
      (o : Option lib.Name) (e : MobileEngine lib) → Keeps lib e (compute_face lib o e)
  unfolding compute_face alloc_id emit_all emit
  compute_face-Keeps none e = stays lib e
  compute_face-Keeps (some prefix) e = record { strategies = λ p. refl; pins = refl }
