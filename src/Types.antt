-- ===== src/Types.antt =====
-- crates/ndn-boltffi/src/types.rs: the errors of the foreign function surface, and the views of Data and
-- of trust contexts that it hands out.
pub mod Envelope
use ndn_mobile.Prelude.{ℕ, Bool, Option, none, some, List, [], ◌++◌}
use ndn_mobile.Text.{Text, codes}

pub data NdnError : Type 0 where
  timeout : (name : Text) → NdnError
  nacked : (name reason : Text) → NdnError
  engine : (msg : Text) → NdnError
  invalid_name : (name : Text) → NdnError
  invalid_address : (addr : Text) → NdnError
  identity : (msg : Text) → NdnError

-- The errors of the app library, with the texts that its `Debug` and `Display` write.
pub data AppError : Type 0 where
  app_timeout : AppError
  app_nacked : (reason : Option Text) → AppError
  connection : (e : Text) → AppError
  closed : AppError
  protocol : (msg : Text) → AppError
  unverified : (why : Text) → AppError
  unsupported : (why : Text) → AppError

unfoldable reason_text : Option Text → Text
reason_text none = codes "Unspecified"
reason_text (some reason) = reason

unfoldable pub from_app : AppError → Text → NdnError
unfolding reason_text
from_app app_timeout name = timeout name
from_app (app_nacked reason) name = nacked name (reason_text reason)
from_app (connection e) name = engine e
from_app closed name = engine (codes "connection closed")
from_app (protocol msg) name = engine msg
from_app (unverified why) name = engine (codes "verification failed: " ++ why)
from_app (unsupported why) name = engine (codes "unsupported: " ++ why)

pub record NdnData : Type 0 where
  pub name : Text
  pub content : List ℕ

-- `unwrap_or_default` of bytes.
unfoldable pub bytes_or_empty : Option (List ℕ) → List ℕ
bytes_or_empty none = []
bytes_or_empty (some bytes) = bytes

-- `NdnData::from_packet`, for the packet library's name and content of Data.
unfoldable pub from_packet :
    {Data : Type 0} → (Data → Text) → (Data → Option (List ℕ)) → Data → NdnData
from_packet name content packet = record {
  name = name packet;
  content = bytes_or_empty (content packet);
}

pub record NdnContext : Type 0 where
  pub namespace : Text
  pub version : ℕ
  pub anchor_count : ℕ
  pub enforces_hierarchy : Bool

pub record NdnSample : Type 0 where
  pub name : Text
  pub publisher : Text
  pub seq : ℕ
  pub payload : Option (List ℕ)
