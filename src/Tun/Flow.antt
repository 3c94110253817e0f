-- ===== src/Tun/Flow.antt =====
-- `parse_ip_flow` and `l4_ports` of crates/ndn-mobile/src/tun.rs, and the packets that they read.
pub mod Headers
use package.ndn_mobile.Prelude.{
  ℕ, ◌+◌, ◌*◌, ◌/◌, ◌%◌, ◌≤◌, ◌<◌, ◌≡◌, ◌≢◌, ◌⊎◌, refl, arith, bit_and,
}
use package.ndn_mobile.Prelude.{
  Bool, true, false, ◌&&◌, ◌||◌, Option, none, some, List, [], ◌∷◌, ◌++◌,
}
use package.ndn_mobile.Prelude.{
  ltb, leb, ◌==◌, if◌then◌else◌, length, take, drop, slice, get_or, be_value,
}

-- `std::net::IpAddr`, by its bytes.
pub data IpAddr : Type 0 where
  v4 : List ℕ → IpAddr
  v6 : List ℕ → IpAddr

pub record IpFlow : Type 0 where
  pub version : ℕ
  pub protocol : ℕ
  pub src : IpAddr
  pub dst : IpAddr
  pub src_port : ℕ
  pub dst_port : ℕ

-- The transport segment is `None` where the header is said to be longer than the packet.
unfoldable pub l4_ports : ℕ → Option (List ℕ) → ℕ × ℕ
l4_ports protocol none = (0, 0)
l4_ports protocol (some seg) =
    if (protocol == 6 || protocol == 17) && leb 4 (length seg)
    then (be_value 0 (slice 0 2 seg), be_value 0 (slice 2 4 seg))
    else (0, 0)

-- `pkt.get(from..)`.
abbrev get_from : List ℕ → ℕ → Option (List ℕ)
get_from pkt from = if leb from (length pkt) then some (drop from pkt) else none

parse_v4 : List ℕ → Option IpFlow
unfolding l4_ports
parse_v4 pkt =
    if ltb (length pkt) 20
    then none
    else let ihl = bit_and (get_or pkt 0 0) 0x0f * 4 in
      let protocol = get_or pkt 9 0 in
      let (src_port, dst_port) = l4_ports protocol (get_from pkt ihl) in
      some (record {
        version = 4;
        protocol = protocol;
        src = v4 (slice 12 16 pkt);
        dst = v4 (slice 16 20 pkt);
        src_port = src_port;
        dst_port = dst_port;
      })

parse_v6 : List ℕ → Option IpFlow
unfolding l4_ports
parse_v6 pkt =
    if ltb (length pkt) 40
    then none
    else let protocol = get_or pkt 6 0 in
      let (src_port, dst_port) = l4_ports protocol (get_from pkt 40) in
      some (record {
        version = 6;
        protocol = protocol;
        src = v6 (slice 8 24 pkt);
        dst = v6 (slice 24 40 pkt);
        src_port = src_port;
        dst_port = dst_port;
      })

unfoldable pub parse_ip_flow : List ℕ → Option IpFlow
unfolding parse_v4 parse_v6
parse_ip_flow [] = none
parse_ip_flow (b ∷ rest) =
    let version = b / 16 in
    if version == 4 then parse_v4 (b ∷ rest) else if version == 6 then parse_v6 (b ∷ rest) else none
