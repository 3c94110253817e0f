-- ===== src/Tests/IdentityTests.antt =====
-- Runs of the identity core over the small security library of the enrollment tests.
use ndn_mobile.Prelude.{ℕ, ◌≡◌, refl, true, false, none, some, All, List, [], ◌∷◌, ◌++◌, inr}
use ndn_mobile.Text.{Text, codes}
use ndn_mobile.Identity.{
  Parts, IdentityCore, EnclaveBackend, SignRequest, prompt, approved, denied, and_then,
  loaded_signer, ok_or, lift, name_in, map_err, set_identity,
}
use ndn_mobile.Identity.Responder.{
  Gate, answer, approve, by_decision, if_approved, sign_request, response_of,
  respond_to_sign_request,
}
use ndn_mobile.Identity.Gate.{IsGranted, answer-IsGranted, accept, served, told, served-accept}
use ndn_mobile.Identity.Responder.{as_request, requested, decide, user_says, snapshot, reply}
use ndn_mobile.Identity.Serving.{
  Turn, arrives, takes, answers, looks_up, completes, calls, serve_remote_signer, run, turn, begin,
  take_next, get_answer, look_up, complete, remove_at, idle,
}
use ndn_mobile.Identity.Serving.Founded.{IsFounded}
use ndn_mobile.Identity.Serving.Provenance.{serve_remote_signer-IsFounded}
use ndn_mobile.Identity.Enclave.{generate_identity_enclave, available, non_empty, fresh_key_name}
use ndn_mobile.Identity.Atomic.{IsKept, loading, generated_enclave, loading-IsAtomic}
use ndn_mobile.Tests.EnrollTests
use ndn_mobile.Tests.SignerTests

-- A response is its id, and its signature if it has one. The policy is the time until which all is
-- approved.
abbrev pub p : Parts
p = record {
  lib = EnrollTests.lib;
  keys = EnrollTests.keys;
  bags = EnrollTests.bags;
  remote = SignerTests.lib;
  parse = λ t. some t;
  to_string = λ n. n;
  encode_name = λ n. n;
  decode_name = λ b. some b;
  remote_name = λ n. n ∷ [];
  remote_wire = λ w. ([], w);
  of_remote = λ c. codes "remote";
  key_name = λ s. s;
  cert_name = λ s. none;
  public_key = λ s. some s;
  sign_region = λ s r w. (inr (s ++ r), w);
  encode_cert = λ n k s a b w. (inr n, w);
  enclave_custodian = λ e t n k. n;
  decode_bag = λ b. inr (b, b);
  encode_bag = λ b. b.0;
  bag_certificate = λ b. b.1;
  Packet = List ℕ;
  Cert = List ℕ;
  decode_packet = λ b. inr b;
  decode_cert = λ b. inr b;
  Context = Text;
  decode_context = λ b v. inr b;
  namespace = λ c. c;
  version = λ c. 1;
  anchors = λ c. [];
  enforces_hierarchy = λ c. true;
  Keyring = List Text;
  no_contexts = [];
  adopt = λ c k. c ∷ k;
  context_for = λ n k. n;
  contexts = λ k. k;
  forget = λ n k. (true, []);
  Validator = List Text;
  hierarchical = [];
  add_trust_anchor = λ c v. c ∷ v;
  adopt_context = λ c v. c ∷ v;
  Policy = ℕ;
  no_grants = 0;
  decide = λ policy r now. prompt;
  grant = λ g policy. g.expires_at;
  clear = λ policy. 0;
  active_grants = λ policy now. 0;
  decode_request = λ b. inr (record { req_id = 4; region = b });
  encode_response = λ r. elim r [ approved id sig ↦ id ∷ sig | denied id ↦ id ∷ [] ];
  Principal = Text;
  from_signer = λ n k s. inr n;
  did = λ n. n;
  name_of = λ n. n;
}

abbrev pub loaded : IdentityCore p
loaded = record {
  identity = some (codes "/a/KEY/1");
  cert_wire = none;
  sign_policy = 0;
  keyring = [];
  pinned_anchors = [];
  world = 0;
}

-- The user says yes.
abbrev gate : Gate p
gate summary w = (true, w)

abbrev req : SignRequest
req = record { req_id = 4; region = 7 ∷ [] }

signed : answer p req gate loaded ≡ (inr (approved 4 (codes "/a/KEY/1" ++ 7 ∷ [])), loaded)
unfolding answer approve by_decision if_approved sign_request response_of and_then loaded_signer
    ok_or lift
signed = refl

answer-IsGranted_example :
    (req.req_id ≡ req.req_id) × IsGranted p loaded loaded req gate (codes "/a/KEY/1" ++ 7 ∷ [])
answer-IsGranted_example =
    answer-IsGranted p req gate loaded loaded req.req_id (codes "/a/KEY/1" ++ 7 ∷ []) signed

served-accept_example :
    served p (accept p (some (7 ∷ [])) gate loaded)
    ≡ told p (p.decode_request (7 ∷ [])) (respond_to_sign_request p (7 ∷ []) gate loaded)
served-accept_example = served-accept p (7 ∷ []) gate loaded

-- While the user thinks about a request, another identity is loaded; a request for nothing comes.
abbrev turns : List (Turn p gate)
turns =
    arrives (codes "/s/1") (some (7 ∷ []))
    ∷ takes
    ∷ arrives (codes "/s/2") none
    ∷ calls (set_identity p (codes "/b/KEY/2"))
    ∷ answers
    ∷ looks_up
    ∷ takes
    ∷ completes 1
    ∷ completes 0
    ∷ []

serve_remote_signer-IsFounded_example :
    All
      (IsFounded p gate loaded turns)
      (serve_remote_signer p gate (codes "/s") turns (inr tt) loaded).1.sent
serve_remote_signer-IsFounded_example =
    serve_remote_signer-IsFounded p gate loaded (codes "/s") turns (inr tt)

-- The signer is the one of the time after the user's answer.
signed_by_the_second :
    (serve_remote_signer p gate (codes "/s") turns (inr tt) loaded).1.sent
    ≡ (codes "/s/1", 4 ∷ codes "/b/KEY/2" ++ 7 ∷ []) ∷ []
unfolding serve_remote_signer run turn begin take_next get_answer look_up requested as_request
    decide user_says by_decision snapshot complete remove_at reply response_of idle set_identity
signed_by_the_second = refl

abbrev locked : EnclaveBackend
locked = record { is_available = false; public_key = []; sign_raw = λ r. [] }

abbrev unlocked : EnclaveBackend
unlocked = record { is_available = true; public_key = 1 ∷ []; sign_raw = λ r. r }

-- A locked enclave leaves the identity as it was.
loading-IsAtomic_example :
    IsKept p loaded (loading p (generated_enclave (codes "/b") locked) loaded)
loading-IsAtomic_example = loading-IsAtomic p (generated_enclave (codes "/b") locked) loaded

-- After an enclave's identity is generated, the certificate is that of the identity before.
stale_certificate :
    (loading p
      (generated_enclave (codes "/b") unlocked)
      (record loaded { cert_wire = some (codes "old") })).1.cert_wire
    ≡ some (codes "old")
unfolding generate_identity_enclave name_in ok_or available non_empty fresh_key_name lift map_err
    set_identity and_then
stale_certificate = refl
