-- ===== src/Enroll/Exchange.antt =====
-- The NDNCERT exchange: NEW, CHALLENGE, and the issued certificate if a repo serves it.
use ndn_mobile.Prelude.{
  ℕ, ◌+◌, not, if◌then◌else◌, Option, none, some, List, [], ◌∷◌, ◌++◌, ◌⊎◌, inl, inr,
}
use ndn_mobile.Text.{Text, codes}
use ndn_mobile.Enroll.{
  cert, sign, fetch, empty_response, incomplete, M, ◌>>=◌, return, throw, map_err, map_io, ok_or,
  lift, PinRequest, Library, EnrollConfig, interest_lifetime,
}
use ndn_mobile.Enroll.Hex.{hex_encode}

module _ (lib : Library) where
  open lib use {World, Name, Signer, Wire, Data, Session}

  unfoldable pub sign_interest : Name → List ℕ → Name → Signer → M World Wire
  sign_interest name params key_name signer =
      map_io sign (lib.sign_fallible name params key_name signer)

  -- One round: the signed Interest, and the content of what comes back.
  unfoldable pub exchange : Text → Name → List ℕ → Name → Signer → M World (List ℕ)
  exchange label name params key_name signer = do
    wire ← sign_interest name params key_name signer
    response ←
        map_io (λ e. fetch (label ++ codes ": " ++ e))
          (lib.fetch_wire wire (interest_lifetime + 500))
    ok_or (lib.content response) empty_response

  -- NEW: the session after it, and the request id.
  unfoldable pub new_request : EnrollConfig lib → Name → Signer → M World (List ℕ × Session)
  new_request cfg key_name signer = do
    (new_params, session) ←
        map_io cert (lib.new_request_body (lib.open_session key_name signer cfg.validity_secs))
    let new_name = lib.append (lib.append cfg.ca_prefix (codes "CA")) (codes "NEW")
    response ← exchange (codes "NEW") new_name new_params key_name signer
    session ← map_err cert (lib.handle_new_response response session)
    request_id_bytes ← ok_or (lib.request_id_bytes session) (cert (codes "no request_id after NEW"))
    return (request_id_bytes, session)

  unfoldable pub challenge_name : EnrollConfig lib → List ℕ → Name
  challenge_name cfg request_id_bytes =
      lib.append_bytes (lib.append (lib.append cfg.ca_prefix (codes "CA")) (codes "CHALLENGE"))
        request_id_bytes

  -- CHALLENGE, with a method and its parameters: the session after it.
  unfoldable pub challenge :
      Text
      → Text
      → List (Text × Text)
      → EnrollConfig lib
      → Name
      → Signer
      → List ℕ × Session
      → M World Session
  challenge label method params cfg key_name signer (request_id_bytes, session) = do
    (body, session) ← map_err cert (lib.challenge_request_body method params session)
    response ← exchange label (challenge_name cfg request_id_bytes) body key_name signer
    map_err cert (lib.handle_challenge_response response session)

  -- No certificate is no failure.
  unfoldable pub fetched : Text ⊎ Data → Option (List ℕ)
  fetched (inl e) = none
  fetched (inr response) = some (lib.raw response)

  unfoldable pub fetch_certificate : Name → M World (Option (List ℕ))
  fetch_certificate name w = let (r, w') = lib.fetch name w in (inr (fetched r), w')

  -- What both challenges end with.
  unfoldable pub finish : Session → M World (Name × Option (List ℕ))
  finish session = if not (lib.is_complete session) then throw incomplete else do
    cert_name ← ok_or (lib.issued_cert_name session) (cert (codes "no issued cert name"))
    certificate ← fetch_certificate cert_name
    return (cert_name, certificate)

  unfoldable pub run_ndncert_token_on :
      EnrollConfig lib → Name → Signer → Text → M World (Name × Option (List ℕ))
  run_ndncert_token_on cfg key_name signer token = do
    opened ← new_request cfg key_name signer
    session ←
        challenge (codes "CHALLENGE token") (codes "token") ((codes "token", token) ∷ []) cfg
          key_name signer opened
    finish session

  -- The user is asked for the code only where the CA has not completed on its own.
  unfoldable pub submit_pin :
      (PinRequest → World → Text × World)
      → EnrollConfig lib
      → Name
      → Signer
      → List ℕ
      → Session
      → M World Session
  submit_pin pin_cb cfg key_name signer request_id_bytes session =
      if not (lib.is_complete session)
      then (do
        let request : PinRequest = record {
          request_id = hex_encode request_id_bytes;
          status_message = lib.challenge_status_message session;
        }
        pin ← lift (pin_cb request)
        challenge (codes "CHALLENGE submit") (codes "pin") ((codes "code", pin) ∷ []) cfg key_name
            signer (request_id_bytes, session))
      else return session

  unfoldable pub run_ndncert :
      EnrollConfig lib
      → Name
      → Signer
      → (PinRequest → World → Text × World)
      → M World (Name × Option (List ℕ))
  run_ndncert cfg key_name signer pin_cb = do
    (request_id_bytes, session) ← new_request cfg key_name signer
    session ←
        challenge (codes "CHALLENGE trigger") (codes "pin") [] cfg key_name signer
          (request_id_bytes, session)
    session ← submit_pin pin_cb cfg key_name signer request_id_bytes session
    finish session
