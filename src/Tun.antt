-- ===== src/Tun.antt =====
-- crates/ndn-mobile/src/tun.rs: the tunnel's settings; the child modules hold the header parser and
-- the datapath.
pub mod Flow
pub mod Datapath
use package.ndn_mobile.Prelude.{ℕ, ◌*◌, max}

-- A `Name` of the packet library, and a lifetime in milliseconds.
pub record TunConfig (Name : Type 0) : Type 0 where
  pub self_prefix : Name
  pub peer_prefix : Name
  pub credit : ℕ
  pub lifetime_ms : ℕ

module _ {Name : Type 0} where
  unfoldable pub new : Name → Name → TunConfig Name
  new self_prefix peer_prefix = record {
    self_prefix = self_prefix;
    peer_prefix = peer_prefix;
    credit = 4096;
    lifetime_ms = 300 * 1000;
  }

  unfoldable pub with_credit : TunConfig Name → ℕ → TunConfig Name
  with_credit c n = record c { credit = max n 1 }

  unfoldable pub with_lifetime : TunConfig Name → ℕ → TunConfig Name
  with_lifetime c d = record c { lifetime_ms = d }
