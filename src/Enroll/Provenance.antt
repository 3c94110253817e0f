-- ===== src/Enroll/Provenance.antt =====
-- What a successful enrollment vouches for, and which keys can leave the device.
use ndn_mobile.Prelude.{
  ℕ, ◌≡◌, refl, Bool-cases, Bool, true, false, Option, none, some, List, inl, inr,
}
use ndn_mobile.Text.{Text}
use ndn_mobile.Enroll.{
  EnrollError, M, and_then, ◌>>=◌, return, ok_or, PinRequest, Library, EnrollConfig,
}
use ndn_mobile.Enroll.Exchange.{
  finish, fetch_certificate, new_request, run_ndncert_token_on, run_ndncert,
}
use ndn_mobile.Enroll.Yields.{Yields, holds, bind-Yields, bind-Yields_both}
use ndn_mobile.Enroll.Identity.{
  Keys, EnrolledIdentity, is_exportable, stamp, certified, enroll_pin, enroll_token,
  enroll_pin_custodian, enroll_token_conn, enroll_token_custodian_conn, enroll_token_custodian,
}

module _ (lib : Library) where
  open lib use {World, Name, Signer, Session}

  -- Some session of the protocol is complete, and the CA issued this name in it.
  abbrev pub IsIssued : Name × Option (List ℕ) → Type 0
  IsIssued (cert_name, certificate) =
      (session : Session) × (lib.is_complete session ≡ true)
      × (lib.issued_cert_name session ≡ some cert_name)

  certify-Yields :
      (session : Session) (o : Option Name) (e : EnrollError)
      → lib.is_complete session ≡ true
      → lib.issued_cert_name session ≡ o
      → Yields IsIssued (do
        cert_name ← ok_or o e
        certificate ← fetch_certificate lib cert_name
        return (cert_name, certificate))
  unfolding fetch_certificate and_then
  certify-Yields session none e c i w = tt
  certify-Yields session (some cert_name) e c i w = (session, c, i)

  finish-Yields : (session : Session) → Yields IsIssued (finish lib session)
  unfolding finish
  finish-Yields session w = elim (Bool-cases (lib.is_complete session)) [
    | inl c ↦ rw (c, finish) (certify-Yields session (lib.issued_cert_name session) _ c refl w)
    | inr c ↦ rw (c, finish) tt
  ]

  token-Yields :
      (cfg : EnrollConfig lib) (key_name : Name) (signer : Signer) (token : Text)
      → Yields IsIssued (run_ndncert_token_on lib cfg key_name signer token)
  unfolding run_ndncert_token_on
  token-Yields cfg key_name signer token =
      bind-Yields IsIssued _ _ λ opened. bind-Yields IsIssued _ _ (finish-Yields)

  pin-Yields :
      (cfg : EnrollConfig lib) (key_name : Name) (signer : Signer)
      (pin_cb : PinRequest → World → Text × World)
      → Yields IsIssued (run_ndncert lib cfg key_name signer pin_cb)
  unfolding run_ndncert
  pin-Yields cfg key_name signer pin_cb =
      bind-Yields IsIssued _ (new_request lib cfg key_name signer)
        λ opened. bind-Yields IsIssued _ _ λ session. bind-Yields IsIssued _ _ finish-Yields

module _ (lib : Library) (keys : Keys lib) where
  open lib use {World, Name, Signer}
  open keys use {Ecdsa, Custodial}

  -- The ways to enroll a key with a CA.
  pub data Method : Type 0 where
    pin : (PinRequest → World → Text × World) → Method
    token : Text → Method
    pin_custodian : Custodial → (PinRequest → World → Text × World) → Method
    token_custodian : Custodial → Text → Method
    token_conn : Text → Method
    token_custodian_conn : Custodial → Text → Method

  abbrev pub enroll : EnrollConfig lib → Method → M World (EnrolledIdentity lib)
  enroll cfg (pin pin_cb) = enroll_pin lib keys cfg pin_cb
  enroll cfg (token t) = enroll_token lib keys cfg t
  enroll cfg (pin_custodian c pin_cb) = enroll_pin_custodian lib keys cfg c pin_cb
  enroll cfg (token_custodian c t) = enroll_token_custodian lib keys cfg c t
  enroll cfg (token_conn t) = enroll_token_conn lib keys cfg t
  enroll cfg (token_custodian_conn c t) = enroll_token_custodian_conn lib keys cfg c t

  abbrev pub is_software : Method → Bool
  is_software (pin pin_cb) = true
  is_software (token t) = true
  is_software (pin_custodian c pin_cb) = false
  is_software (token_custodian c t) = false
  is_software (token_conn t) = true
  is_software (token_custodian_conn c t) = false

  -- Certified in a completed session, with a private key that can be exported or not.
  abbrev pub IsCertified : Bool → EnrolledIdentity lib → Type 0
  IsCertified exports id =
      IsIssued lib (id.cert_name, id.certificate) × (is_exportable lib keys id ≡ exports)

  stamp-Yields :
      (ecdsa : Ecdsa) (key_name : Name) (issued : Name × Option (List ℕ))
      → IsIssued lib issued
      → Yields (IsCertified true) (stamp lib keys ecdsa key_name issued)
  unfolding stamp is_exportable
  stamp-Yields ecdsa key_name issued i = bind-Yields (IsCertified true) _ _ λ pkcs8.
      bind-Yields (IsCertified true) _ _
        λ restored. bind-Yields (IsCertified true) _ _ λ exportable w. (i, refl)

  enroll-Yields :
      (cfg : EnrollConfig lib) (m : Method) → Yields (IsCertified (is_software m)) (enroll cfg m)
  unfolding enroll_pin enroll_token enroll_pin_custodian enroll_token_custodian enroll_token_conn
      enroll_token_custodian_conn certified is_exportable
  enroll-Yields cfg (pin pin_cb) = bind-Yields (IsCertified true) _ _ λ key_name.
      bind-Yields (IsCertified true) _ _ λ ecdsa.
        bind-Yields_both (IsIssued lib) (IsCertified true) _ _ (pin-Yields lib cfg _ _ pin_cb)
          (stamp-Yields ecdsa key_name)
  enroll-Yields cfg (token t) = bind-Yields (IsCertified true) _ _ λ key_name.
      bind-Yields (IsCertified true) _ _ λ ecdsa.
        bind-Yields_both (IsIssued lib) (IsCertified true) _ _ (token-Yields lib cfg _ _ t)
          (stamp-Yields ecdsa key_name)
  enroll-Yields cfg (pin_custodian c pin_cb) =
      bind-Yields_both (IsIssued lib) (IsCertified false) _ _ (pin-Yields lib cfg _ _ pin_cb)
        (λ issued i w. (i, refl))
  enroll-Yields cfg (token_custodian c t) =
      bind-Yields_both (IsIssued lib) (IsCertified false) _ _ (token-Yields lib cfg _ _ t)
        (λ issued i w. (i, refl))
  enroll-Yields cfg (token_conn t) = bind-Yields (IsCertified true) _ _ λ key_name.
      bind-Yields (IsCertified true) _ _ λ ecdsa.
        bind-Yields_both (IsIssued lib) (IsCertified true) _ _ (token-Yields lib cfg _ _ t)
          (stamp-Yields ecdsa key_name)
  enroll-Yields cfg (token_custodian_conn c t) =
      bind-Yields_both (IsIssued lib) (IsCertified false) _ _ (token-Yields lib cfg _ _ t)
        (λ issued i w. (i, refl))

  -- Whatever the CA, the network and the user do: where one of the six enrollments returns an
  -- identity, some session of the protocol is complete and the CA issued the identity's certificate
  -- name in it; and its private key can be exported exactly if it is a software key.
  pub enroll-IsCertified :
      (cfg : EnrollConfig lib) (m : Method) (w w' : World) (id : EnrolledIdentity lib)
      → enroll cfg m w ≡ (inr id, w')
      → IsCertified (is_software m) id
  enroll-IsCertified cfg m w w' id =
      holds (IsCertified (is_software m)) (enroll cfg m) w w' id (enroll-Yields cfg m)
