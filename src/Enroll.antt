-- ===== src/Enroll.antt =====
-- Enrollment: crates/ndn-mobile/src/enroll.rs. An `async` call runs to its end against a world, the
-- network, the clock, the random source and the user, which it may change.
pub mod Yields
pub mod Exchange
pub mod Identity
pub mod Provenance
pub mod Safebag
pub mod Persistence
pub mod Hex
use ndn_mobile.Prelude.{ℕ, Bool, Option, none, some, List, ◌⊎◌, inl, inr, ◌++◌}
use ndn_mobile.Text.{Text}

pub data EnrollError : Type 0 where
  key : Text → EnrollError
  cert : Text → EnrollError
  sign : Text → EnrollError
  fetch : Text → EnrollError
  empty_response : EnrollError
  incomplete : EnrollError
  no_certificate : EnrollError
  not_exportable : EnrollError
  safebag : Text → EnrollError

abbrev pub M : Type 0 → Type 0 → Type 0
M W A = W → (EnrollError ⊎ A) × W

unfoldable pub and_then :
    {W A B : Type 0} → (EnrollError ⊎ A) × W → (A → M W B) → (EnrollError ⊎ B) × W
and_then (inl e, w) f = (inl e, w)
and_then (inr a, w) f = f a w

infixl 5 ◌>>=◌
abbrev pub ◌>>=◌ : {W A B : Type 0} → M W A → (A → M W B) → M W B
◌>>=◌ m f w = and_then (m w) f

abbrev pub return : {W A : Type 0} → A → M W A
return a w = (inr a, w)

abbrev pub throw : {W A : Type 0} → EnrollError → M W A
throw e w = (inl e, w)

-- `map_err` of a result that needs no world, and of one that does.
abbrev pub map_err : {W A : Type 0} → (Text → EnrollError) → Text ⊎ A → M W A
map_err f (inl e) w = (inl (f e), w)
map_err f (inr a) w = (inr a, w)

abbrev pub map_io : {W A : Type 0} → (Text → EnrollError) → (W → (Text ⊎ A) × W) → M W A
map_io f m w = let (r, w') = m w in map_err f r w'

abbrev pub ok_or : {W A : Type 0} → Option A → EnrollError → M W A
ok_or none e w = (inl e, w)
ok_or (some a) e w = (inr a, w)

abbrev pub lift : {W A : Type 0} → (W → A × W) → M W A
lift m w = let (a, w') = m w in (inr a, w')

pub record PinRequest : Type 0 where
  pub request_id : Text
  pub status_message : Option Text

-- What the packet, certificate and app libraries do.
pub record Library : Type 1 where
  pub World : Type 0
  pub Name : Type 0
  pub Signer : Type 0
  pub Wire : Type 0
  pub Data : Type 0
  pub Session : Type 0
  pub append : Name → Text → Name
  pub append_bytes : Name → List ℕ → Name
  -- `EnrollmentSession`.
  pub open_session : Name → Signer → (validity_secs : ℕ) → Session
  pub new_request_body : Session → World → (Text ⊎ (List ℕ × Session)) × World
  pub handle_new_response : List ℕ → Session → Text ⊎ Session
  pub request_id_bytes : Session → Option (List ℕ)
  pub challenge_request_body : Text → List (Text × Text) → Session → Text ⊎ (List ℕ × Session)
  pub handle_challenge_response : List ℕ → Session → Text ⊎ Session
  pub is_complete : Session → Bool
  pub challenge_status_message : Session → Option Text
  pub issued_cert_name : Session → Option Name
  -- `InterestBuilder` and `sign_fallible`, with the parameters, the key name and the signer.
  pub sign_fallible : Name → List ℕ → Name → Signer → World → (Text ⊎ Wire) × World
  -- `Consumer`, with its timeout in milliseconds.
  pub fetch_wire : Wire → (timeout : ℕ) → World → (Text ⊎ Data) × World
  pub fetch : Name → World → (Text ⊎ Data) × World
  pub content : Data → Option (List ℕ)
  pub raw : Data → List ℕ

-- Milliseconds.
abbrev pub interest_lifetime : ℕ
interest_lifetime = 10000

-- One day.
abbrev pub default_validity_secs : ℕ
default_validity_secs = 86400

pub record EnrollConfig (lib : Library) : Type 0 where
  pub ca_prefix : lib.Name
  pub identity : lib.Name
  pub validity_secs : ℕ

module _ (lib : Library) where
  unfoldable pub new : lib.Name → lib.Name → EnrollConfig lib
  new ca_prefix identity = record {
    ca_prefix = ca_prefix;
    identity = identity;
    validity_secs = default_validity_secs;
  }

  unfoldable pub with_validity_secs : ℕ → EnrollConfig lib → EnrollConfig lib
  with_validity_secs secs c = record c { validity_secs = secs }
