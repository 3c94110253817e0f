-- ===== src/Infra/Descriptors.antt =====
-- Where the platform's socket descriptors end up.
use ndn_mobile.Prelude.{
  ℕ, ◌≡◌, ◌+◌, refl, ap, ◌∙◌, arith, Bool, true, false, Bool-cases, ◌==◌, if◌then◌else◌, Option,
  none, some, List, [], ◌∷◌, inl, inr, null, zero-add,
}
use ndn_mobile.Text.{Text}
use ndn_mobile.Text.Map.{lookup, insert}
use ndn_mobile.Infra.{
  Parsers, Node, Call, beacon, addr, socket, set_infra_addr, close, set_infra_socket, adopt,
  reserve, reach, from_addr, maybe_attach_infra_tunnel, tunnel, route, note_peer, step, run, equal,
  non_empty, same_subnet24,
}

abbrev one : ℕ → ℕ → ℕ
one fd x = if x == fd then 1 else 0

-- How often a descriptor stands in a list.
abbrev pub count : ℕ → List ℕ → ℕ
count fd [] = 0
count fd (x ∷ xs) = one fd x + count fd xs

abbrev pub count_held : ℕ → Option ℕ → ℕ
count_held fd none = 0
count_held fd (some x) = one fd x

module _ (lib : Parsers) where
  open lib use {Name, SocketAddr}

  abbrev pub count_adopted : ℕ → List (Name × ℕ × SocketAddr) → ℕ
  count_adopted fd [] = 0
  count_adopted fd ((prefix, x, peer) ∷ xs) = one fd x + count_adopted fd xs

  -- How often the platform has handed a descriptor over.
  abbrev pub count_given : ℕ → List (Call lib) → ℕ
  count_given fd [] = 0
  count_given fd (socket x ∷ cs) = one fd x + count_given fd cs
  count_given fd (c ∷ cs) = count_given fd cs

  -- How often a descriptor is closed, given to an attach or held for one.
  abbrev pub places : ℕ → Node lib → ℕ
  places fd s = count fd s.closed + count_adopted fd s.attached + count_held fd s.infra_socket_fd

  places-adopt :
      (fd : ℕ) (attaches : Bool) (id : Text) (prefix : Name) (peer : SocketAddr) (o : Option ℕ)
      (s : Node lib)
      → s.infra_socket_fd ≡ o
      → places fd (adopt lib attaches id prefix peer o s) ≡ places fd s
  unfolding adopt
  places-adopt fd attaches id prefix peer none s e = refl
  places-adopt fd attaches id prefix peer (some x) s e = omega (arith, ap (count_held fd) e)

  places-reserve :
      (fd : ℕ) (attaches : Bool) (id : Text) (prefix : Name) (peer : SocketAddr)
      (o : Option (Unit {0})) (s : Node lib)
      → places fd (reserve lib attaches id prefix peer o s) ≡ places fd s
  unfolding reserve
  places-reserve fd attaches id prefix peer (some _) s = refl
  places-reserve fd attaches id prefix peer none s =
      places-adopt fd attaches id prefix peer s.infra_socket_fd
        (record s { infra_peers = insert id tt s.infra_peers }) refl

  places-reach :
      (fd : ℕ) (attaches : Bool) (id : Text) (prefix : Name) (o : Option SocketAddr) (s : Node lib)
      → places fd (reach lib attaches id prefix o s) ≡ places fd s
  unfolding reach
  places-reach fd attaches id prefix none s = refl
  places-reach fd attaches id prefix (some peer) s =
      places-reserve fd attaches id prefix peer (lookup id s.infra_peers) s

  places-from_addr :
      (fd : ℕ) (attaches : Bool) (id : Text) (prefix : Name) (peer_ip : Text) (o : Option Text)
      (s : Node lib)
      → places fd (from_addr lib attaches id prefix peer_ip o s) ≡ places fd s
  unfolding from_addr
  places-from_addr fd attaches id prefix peer_ip none s = refl
  places-from_addr fd attaches id prefix peer_ip (some local_ip) s =
      elim (Bool-cases (same_subnet24 local_ip peer_ip)) [
        | inl h ↦ simp h (places-reach fd attaches id prefix (lib.parse_addr _) s)
        | inr h ↦ simp h
      ]

  places-tunnel :
      (fd : ℕ) (attaches : Bool) (id : Text) (prefix : Name) (o : Option Text) (s : Node lib)
      → places fd (tunnel lib attaches id prefix o s) ≡ places fd s
  unfolding tunnel maybe_attach_infra_tunnel
  places-tunnel fd attaches id prefix none s = refl
  places-tunnel fd attaches id prefix (some peer_ip) s =
      places-from_addr fd attaches id prefix peer_ip s.local_infra_addr s

  places_either :
      (fd : ℕ) (b : Bool) (t s : Node lib)
      → places fd t ≡ places fd s
      → places fd (if b then t else s) ≡ places fd s
  places_either fd true t s e = e
  places_either fd false t s e = refl

  places-route :
      (fd : ℕ) (attaches : Bool) (id face : Text) (infra : Option Text) (o : Option Name)
      (s : Node lib)
      → places fd (route lib attaches id face infra o s) ≡ places fd s
  unfolding route
  places-route fd attaches id face infra none s = refl
  places-route fd attaches id face infra (some prefix) s =
      places_either fd s.inner _ s (
        places-tunnel fd attaches id prefix infra (record s { routes = (prefix, face) ∷ s.routes }))

  places-close :
      (fd : ℕ) (o : Option ℕ) (closed : List ℕ)
      → count fd (close lib o closed) ≡ count_held fd o + count fd closed
  unfolding close
  places-close fd none closed = omega arith
  places-close fd (some old) closed = refl

  places-step :
      (fd : ℕ) (c : Call lib) (s : Node lib)
      → places fd (step lib c s) ≡ count_given fd (c ∷ []) + places fd s
  unfolding step note_peer set_infra_addr set_infra_socket
  places-step fd (beacon now attaches id label face rssi infra_addr) s =
      elim (Bool-cases (null id)) [
        | inl h ↦ simp (h, zero-add)
        | inr h ↦ simp (h, zero-add) (places-route fd attaches id face _ _ _)
      ]
  places-step fd (addr ipv4) s =
      elim (Bool-cases (equal lib s.local_infra_addr (non_empty lib ipv4))) [
        | inl h ↦ simp (h, zero-add)
        | inr h ↦ simp (h, zero-add)
      ]
  places-step fd (socket x) s = omega (arith, places-close fd s.infra_socket_fd s.closed)

  given_cons :
      (fd : ℕ) (c : Call lib) (cs : List (Call lib))
      → count_given fd (c ∷ cs) ≡ count_given fd (c ∷ []) + count_given fd cs
  given_cons fd (beacon now attaches id label face rssi infra_addr) cs = omega arith
  given_cons fd (addr ipv4) cs = omega arith
  given_cons fd (socket x) cs = omega arith

  -- Over any beacons and calls of the platform, from any state: each descriptor is closed, given to an
  -- attach or still held exactly as often as the platform has handed it over, beyond what the state
  -- had at the start.
  pub places-run :
      (fd : ℕ) (cs : List (Call lib)) (s : Node lib)
      → places fd (run lib cs s) ≡ count_given fd cs + places fd s
  places-run fd [] s = omega arith
  places-run fd (c ∷ cs) s =
      places-run fd cs (step lib c s) ∙ omega (arith, places-step fd c s, given_cons fd c cs)
