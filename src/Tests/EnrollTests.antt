-- ===== src/Tests/EnrollTests.antt =====
-- Runs of enrollment against a small CA.
use ndn_mobile.Prelude.{
  ℕ, ◌≡◌, ◌+◌, ◌-◌, ◌==◌, refl, arith, true, none, some, List, [], ◌∷◌, ◌++◌, inl, inr,
}
use ndn_mobile.Text.{Text, codes}
use ndn_mobile.Enroll.{Library, EnrollConfig, and_then, PinRequest}
use ndn_mobile.Enroll.Exchange.{
  sign_interest, exchange, new_request, challenge_name, challenge, fetched, fetch_certificate,
  finish, run_ndncert_token_on, submit_pin, run_ndncert,
}
use ndn_mobile.Enroll.Identity.{
  Keys, EnrolledIdentity, new_key_name, stamp, certified, enroll_pin, enroll_token_custodian,
  generate_identity,
}
use ndn_mobile.Enroll.Provenance.{
  Method, pin, token_custodian, enroll, IsCertified, enroll-IsCertified,
}
use ndn_mobile.Enroll.Persistence.{Restores, generate_identity-comes_back, load_identity-to_safebag}
use ndn_mobile.Enroll.Safebag.{Bags, ed25519, to_safebag, load_identity}

-- The world counts the Interests. A session is the number of challenges that the CA still wants,
-- which is the validity asked for.
abbrev pub lib : Library
lib = record {
  World = ℕ;
  Name = Text;
  Signer = Text;
  Wire = Text;
  Data = Text;
  Session = ℕ;
  append = λ n t. n ++ codes "/" ++ t;
  append_bytes = λ n t. n ++ t;
  open_session = λ n s v. v;
  new_request_body = λ s w. (inr ([], s), w);
  handle_new_response = λ r s. inr s;
  request_id_bytes = λ s. some (1 ∷ []);
  challenge_request_body = λ m ps s. inr ([], s);
  handle_challenge_response = λ r s. inr (s - 1);
  is_complete = λ s. s == 0;
  challenge_status_message = λ s. none;
  issued_cert_name = λ s. some (codes "/cert");
  sign_fallible = λ n ps k s w. (inr n, w);
  fetch_wire = λ n t w. (inr n, w + 1);
  fetch = λ n w. (inl (codes "no repo"), w);
  content = λ d. some d;
  raw = λ d. d;
}

-- A key is its name.
abbrev pub keys : Keys lib
keys = record {
  Ecdsa = Text;
  Ed25519 = Text;
  generate_ecdsa = λ n w. (inr n, w);
  ecdsa_to_pkcs8 = λ k. inr k;
  ecdsa_from_pkcs8 = λ p n. inr p;
  ecdsa_with_cert_name = λ n k. k;
  ecdsa_signer = λ k. k;
  generate_ed25519 = λ n w. (inr n, w);
  public_key = λ k. some k;
  encode_cert_data = λ n p k a b w. (inr n, w);
  ed25519_to_pkcs8 = λ k. inr k;
  ed25519_from_pkcs8 = λ p n. inr p;
  ed25519_with_cert_name = λ n k. k;
  ed25519_signer = λ k. k;
  Custodial = Text;
  custodian_key_name = λ c. c;
  custodian_signer = λ c. c;
  custodian_certified = λ n c. c;
  clock = λ w. (5000000, w);
  append_version = λ n v. n ++ codes "/v=" ++ v ∷ [];
}

-- A bag is the password and the key.
abbrev pub bags : Bags lib
bags = record {
  Bag = List ℕ × List ℕ;
  encrypt = λ c k p w. (inr (p, k), w);
  decrypt_pkcs8 = λ b p. inr b.1;
  algorithm = λ b p. inr ed25519;
}

abbrev cfg : EnrollConfig lib
cfg = record { ca_prefix = codes "/ndn"; identity = codes "/a"; validity_secs = 2 }

abbrev pin_cb : PinRequest → ℕ → Text × ℕ
pin_cb r w = (r.request_id, w)

abbrev by_pin : EnrolledIdentity lib
by_pin = record {
  signer = codes "/a/KEY/v=" ++ 5 ∷ [];
  key_name = codes "/a/KEY/v=" ++ 5 ∷ [];
  cert_name = codes "/cert";
  certificate = none;
  exportable = some (codes "/a/KEY/v=" ++ 5 ∷ []);
}

-- NEW and two challenges; the issued certificate is not served.
pin_run : enroll lib keys cfg (pin pin_cb) 0 ≡ (inr by_pin, 3)
unfolding and_then sign_interest exchange new_request challenge_name challenge fetched
    fetch_certificate finish submit_pin run_ndncert new_key_name stamp enroll_pin
pin_run = refl

enroll-IsCertified_example : IsCertified lib keys true by_pin
enroll-IsCertified_example = enroll-IsCertified lib keys cfg (pin pin_cb) 0 3 by_pin pin_run

abbrev short_cfg : EnrollConfig lib
short_cfg = record { ca_prefix = codes "/ndn"; identity = codes "/a"; validity_secs = 1 }

abbrev enclave : Method lib keys
enclave = token_custodian (codes "/a/KEY/9") (codes "secret")

abbrev by_enclave : EnrolledIdentity lib
by_enclave = record {
  signer = codes "/a/KEY/9";
  key_name = codes "/a/KEY/9";
  cert_name = codes "/cert";
  certificate = none;
  exportable = none;
}

enclave_run : enroll lib keys short_cfg enclave 0 ≡ (inr by_enclave, 2)
unfolding and_then sign_interest exchange new_request challenge_name challenge fetched
    fetch_certificate finish run_ndncert_token_on certified enroll_token_custodian
enclave_run = refl

abbrev own : Text
own = codes "/a/KEY/v=" ++ 5 ∷ []

abbrev self_signed : EnrolledIdentity lib
self_signed = record {
  signer = own;
  key_name = own;
  cert_name = own;
  certificate = some own;
  exportable = some own;
}

self_signed_run : generate_identity lib keys (codes "/a") 60 0 ≡ (inr self_signed, 0)
unfolding and_then new_key_name generate_identity
self_signed_run = refl

opens :
    (certificate pkcs8 password : List ℕ) (w w' : ℕ) (bag : List ℕ × List ℕ)
    → bags.encrypt certificate pkcs8 password w ≡ (inr bag, w')
    → (bags.decrypt_pkcs8 bag password ≡ inr pkcs8) × (bags.algorithm bag password ≡ inr ed25519)
opens certificate pkcs8 password w w' bag e = (ground arith, refl)

stored : to_safebag lib keys bags (1 ∷ []) self_signed 0 ≡ (inr (1 ∷ [], own), 0)
unfolding to_safebag and_then
stored = refl

load_identity-to_safebag_example :
    Restores lib keys bags ed25519 own
      (codes "/b")
      (load_identity lib keys bags (1 ∷ [], own) (1 ∷ []) (codes "/b") 3)
      3
load_identity-to_safebag_example =
    load_identity-to_safebag lib keys bags (λ k. ed25519) opens self_signed own (1 ∷ [])
      (codes "/b") 0 0 3 (1 ∷ [], own) refl stored

generate_identity-comes_back_example :
    (k : Text) × ◌≡◌ {A = Text} own k
    × (load_identity lib keys bags (1 ∷ [], own) (1 ∷ []) own 3 ≡ (inr k, 3))
generate_identity-comes_back_example =
    generate_identity-comes_back lib keys bags (λ k. ed25519) opens (λ k pkcs8 e. refl) (codes "/a")
      60 (1 ∷ []) 0 0 0 0 3 self_signed (1 ∷ [], own) self_signed_run stored
