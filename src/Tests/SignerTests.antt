-- ===== src/Tests/SignerTests.antt =====
-- Runs of the remote signer against a node that signs with the request itself.
use ndn_mobile.Prelude.{
  ℕ, ◌≡◌, refl, Bool, true, false, Option, none, some, List, [], ◌∷◌, ◌++◌, inr,
}
use ndn_mobile.Text.{Text, codes, same, cmp}
use ndn_mobile.RemoteSigner.{
  Library, approved, RemoteSignerClient, data_of, decode_raw, decode_reply, answer, or_empty,
  correlate, receive, send, request, sign,
}
use ndn_mobile.RemoteSigner.Correlation.{Approves, sign-Approves}

-- A wire is a name and a content, and so is Data.
abbrev name_of : List Text × List ℕ → List Text
name_of (name, content) = name

abbrev content_of : List Text × List ℕ → Option (List ℕ)
content_of (name, content) = some content

abbrev equal : List Text → List Text → Bool
equal [] [] = true
equal (a ∷ as') (b ∷ bs) = elim (same a b) [ true ↦ equal as' bs | false ↦ false ]
equal _ _ = false

abbrev pub lib : Library
lib = record {
  World = ℕ;
  Name = List Text;
  Component = Text;
  Wire = List Text × List ℕ;
  Data = List Text × List ℕ;
  value = λ c. c;
  components = λ n. n;
  from_components = λ n. n;
  SigType = ℕ;
  Cert = ℕ;
  decode_cert = λ d. inr 0;
  cert_name = λ c. [];
  sig_type = λ c. 3;
  public_key = λ c. [];
  same_name = equal;
  is_lp_packet = λ w. false;
  decode_lp = λ w. inr none;
  decode_data = λ w. inr w;
  data_name = name_of;
  content = content_of;
  encode_request = λ id region. id ∷ region;
  build = λ n ps. (n ++ ps ∷ [], ps);
  interest_name = λ w. inr (name_of w);
  fetch_correlated = λ n wire w. (inr wire, w);
  decode_response = λ b. inr (approved b);
}

abbrev client : RemoteSignerClient lib
client = record {
  prefix = codes "sign" ∷ [];
  sig_type = 3;
  key_name = [];
  cert_name = none;
  public_key = none;
  req_seq = 1;
}

signed : (sign lib (7 ∷ 8 ∷ []) client 0).0.0 ≡ inr (1 ∷ 7 ∷ 8 ∷ [])
unfolding sign send receive correlate answer or_empty decode_reply decode_raw data_of request cmp
signed = refl

sign-Approves_example :
    (expected : List Text) × (reply : List Text × List ℕ) × (lib.interest_name
        (request lib client (7 ∷ 8 ∷ []))
      ≡ inr expected)
    × ((lib.fetch_correlated expected (request lib client (7 ∷ 8 ∷ [])) 0).0 ≡ inr reply)
    × Approves lib expected (1 ∷ 7 ∷ 8 ∷ []) reply
sign-Approves_example = sign-Approves lib (7 ∷ 8 ∷ []) client 0 (1 ∷ 7 ∷ 8 ∷ []) signed
