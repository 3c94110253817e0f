-- ===== src/Tun/Flow/Headers.antt =====
-- The flows that tun.rs reads from packets that are put together from their fields.
use ndn_mobile.Prelude.{
  ℕ, ◌+◌, ◌*◌, ◌/◌, ◌%◌, ◌≤◌, ◌<◌, ◌≡◌, ◌≢◌, ◌⊎◌, ◌↔◌, refl, ap, ◌∙◌, arith, bit_and, inl, inr,
}
use ndn_mobile.Prelude.{true, ◌||◌, none, some, List, [], ◌∷◌, ◌++◌}
use ndn_mobile.Prelude.{
  Bool-cases, ltb→lt, slice, get_or, ltb, ◌==◌, if◌then◌else◌, length, drop, drop-append,
  drop-length, length-append, bit_and_nibble,
}
use ndn_mobile.Tun.Flow.{v4, l4_ports, get_from, parse_v4, parse_ip_flow}

-- A packet that gives no flow: empty, of another version, or shorter than its fixed header.
abbrev pub IsUnreadable : List ℕ → Type 0
IsUnreadable [] = Unit
IsUnreadable (b ∷ rest) =
    (b / 16 ≡ 4) × (length (b ∷ rest) < 20)
    ⊎ (b / 16 ≡ 6) × (length (b ∷ rest) < 40)
    ⊎ (b / 16 ≢ 4) × (b / 16 ≢ 6)

-- A flow is refused exactly for such packets; every other packet gives one.
pub parse_ip_flow-eq_none : (pkt : List ℕ) → (parse_ip_flow pkt ≡ none) ↔ IsUnreadable pkt
unfolding parse_ip_flow
parse_ip_flow-eq_none [] = (λ h. tt, λ h. refl)
parse_ip_flow-eq_none (b ∷ rest) = (ground arith, ground arith)

-- A port, in network order.
abbrev pub be_bytes2 : ℕ → List ℕ
be_bytes2 n = (n / 256) ∷ (n % 256) ∷ []

-- The ports at the front of a TCP or UDP segment, and none for other protocols.
abbrev pub ports : ℕ → ℕ → ℕ → ℕ × ℕ
ports protocol src dst = if protocol == 6 || protocol == 17 then (src, dst) else (0, 0)

l4_ports-ports :
    (protocol src dst : ℕ) (rest : List ℕ)
    → l4_ports protocol (some (be_bytes2 src ++ be_bytes2 dst ++ rest)) ≡ ports protocol src dst
unfolding l4_ports
l4_ports-ports protocol src dst rest = ground arith

-- The four bytes of an address.
abbrev pub Quad : Type 0
Quad = ℕ × ℕ × ℕ × ℕ

abbrev pub quad_bytes : Quad → List ℕ
quad_bytes (a, b, c, d) = a ∷ b ∷ c ∷ d ∷ []

-- The bytes of an IPv4 header that the parser passes over.
pub record Skipped : Type 0 where
  pub service : ℕ
  pub size : ℕ × ℕ
  pub ident : ℕ × ℕ
  pub fragment : ℕ × ℕ
  pub ttl : ℕ
  pub checksum : ℕ × ℕ

-- An IPv4 header of `ihl` words, without its options.
abbrev pub v4_header : ℕ → Skipped → ℕ → Quad → Quad → List ℕ
v4_header ihl k protocol src dst =
    (64 + ihl)
    ∷ k.service
    ∷ k.size.0
    ∷ k.size.1
    ∷ k.ident.0
    ∷ k.ident.1
    ∷ k.fragment.0
    ∷ k.fragment.1
    ∷ k.ttl
    ∷ protocol
    ∷ k.checksum.0
    ∷ k.checksum.1
    ∷ (quad_bytes src ++ quad_bytes dst)

get_from-append :
    (head seg : List ℕ) (n : ℕ) → n ≡ length head → get_from (head ++ seg) n ≡ some seg
get_from-append head seg n e =
    let drops : drop n (head ++ seg) ≡ seg =
      drop-append n head seg (omega arith)
      ∙ ap (λ r. r ++ seg) (drop-length n head (omega arith)) in
    ground (arith, drops, length-append head seg)

parse_v4_long :
    (pkt : List ℕ)
    → 20 ≤ length pkt
    → let (src_port, dst_port) =
        l4_ports (get_or pkt 9 0) (get_from pkt (bit_and (get_or pkt 0 0) 0x0f * 4)) in
      parse_v4 pkt
      ≡ some (record {
        version = 4;
        protocol = get_or pkt 9 0;
        src = v4 (slice 12 16 pkt);
        dst = v4 (slice 16 20 pkt);
        src_port = src_port;
        dst_port = dst_port;
      })
unfolding parse_v4
parse_v4_long pkt h = elim (Bool-cases (ltb (length pkt) 20)) [
  | inl e ↦ absurd (omega (arith, ltb→lt (length pkt) 20 e))
  | inr e ↦ rw e
]

-- An IPv4 packet with any options, and a segment that begins with two ports, gives its own version,
-- protocol and addresses, and its ports if the protocol is TCP or UDP.
pub parse_ip_flow-v4_header :
    (ihl : ℕ) (k : Skipped) (protocol : ℕ) (src dst : Quad) (options : List ℕ) (sport dport : ℕ)
    (rest : List ℕ)
    → ihl < 16
    → length options + 20 ≡ ihl * 4
    → parse_ip_flow (
        (v4_header ihl k protocol src dst ++ options)
        ++ (be_bytes2 sport ++ be_bytes2 dport ++ rest))
      ≡ some (record {
        version = 4;
        protocol = protocol;
        src = v4 (quad_bytes src);
        dst = v4 (quad_bytes dst);
        src_port = (ports protocol sport dport).0;
        dst_port = (ports protocol sport dport).1;
      })
unfolding parse_ip_flow
parse_ip_flow-v4_header ihl k protocol src dst options sport dport rest small size =
    let seg = be_bytes2 sport ++ be_bytes2 dport ++ rest in
    let head = v4_header ihl k protocol src dst ++ options in
    let version : ((64 + ihl) / 16 == 4) ≡ true = ground arith in
    let low = bit_and_nibble ihl small in
    let found = get_from-append head seg (ihl * 4) (omega arith) in
    let ports_of = l4_ports-ports protocol sport dport rest in
    rw version (
      parse_v4_long (head ++ seg) (omega (arith, length-append head seg))
      ∙ rw (low, found, ports_of))
