-- ===== src/RemoteSigner.antt =====
-- The remote signer of crates/ndn-boltffi/src/remote_signer_client.rs: signing by an exchange with the
-- node that holds the key.
pub mod Correlation
pub mod KeyName
use ndn_mobile.Prelude.{
  ℕ, suc, ◌+◌, ◌%◌, ◌^◌, min, Bool, true, false, not, if◌then◌else◌, Option, none, some, List, [],
  ◌∷◌, ◌++◌, ◌⊎◌, inl, inr, length, take,
}
use ndn_mobile.Text.{Text, codes, same}

pub data Response : Type 0 where
  approved : (signature : List ℕ) → Response
  denied : Response

-- What the packet, certificate and app libraries do.
pub record Library : Type 1 where
  pub World : Type 0
  pub Name : Type 0
  pub Component : Type 0
  pub Wire : Type 0
  pub Data : Type 0
  pub SigType : Type 0
  pub Cert : Type 0
  pub value : Component → List ℕ
  pub components : Name → List Component
  pub from_components : List Component → Name
  pub same_name : Name → Name → Bool
  pub is_lp_packet : Wire → Bool
  -- `LpPacket::decode`, and its fragment.
  pub decode_lp : Wire → Text ⊎ Option Wire
  pub decode_data : Wire → Text ⊎ Data
  pub data_name : Data → Name
  pub content : Data → Option (List ℕ)
  -- `Certificate::decode` and what it reads; an error is a `TrustError` by its text.
  pub decode_cert : Data → Text ⊎ Cert
  pub cert_name : Cert → Name
  pub sig_type : Cert → SigType
  pub public_key : Cert → List ℕ
  -- `WireSignRequest::encode`, `InterestBuilder` and the name of the Interest it builds.
  pub encode_request : (req_id : ℕ) → (region : List ℕ) → List ℕ
  pub build : Name → List ℕ → Wire
  pub interest_name : Wire → Text ⊎ Name
  pub fetch_correlated : Name → Wire → World → (Text ⊎ Wire) × World
  pub decode_response : List ℕ → Text ⊎ Response

module _ (lib : Library) where
  open lib use {World, Name, Component, Wire, Data, Cert}

  unfoldable pub fragment_of : Text ⊎ Option Wire → Text ⊎ Wire
  fragment_of (inl e) = inl (codes "lp decode: " ++ e)
  fragment_of (inr none) = inl (codes "lp packet had no fragment")
  fragment_of (inr (some fragment)) = inr fragment

  unfoldable pub data_of : Text ⊎ Data → Text ⊎ Data
  data_of (inl e) = inl (codes "data decode: " ++ e)
  data_of (inr d) = inr d

  unfoldable pub decode_raw : Text ⊎ Wire → Text ⊎ Data
  decode_raw (inl e) = inl e
  decode_raw (inr raw) = data_of (lib.decode_data raw)

  unfoldable pub decode_reply : Wire → Text ⊎ Data
  decode_reply reply =
      decode_raw (if lib.is_lp_packet reply then fragment_of (lib.decode_lp reply) else inr reply)

  -- The place of the first component that is `KEY`.
  unfoldable pub moved : Option ℕ → Option ℕ
  moved none = none
  moved (some i) = some (suc i)

  unfoldable pub position : List Component → Option ℕ
  position [] = none
  position (c ∷ cs) = if same (lib.value c) (codes "KEY") then some 0 else moved (position cs)

  unfoldable pub name_to_key : Name → List Component → Option ℕ → Name
  name_to_key cert_name comps none = cert_name
  name_to_key cert_name comps (some key_idx) =
      lib.from_components (take (min (key_idx + 2) (length comps)) comps)

  unfoldable pub key_name_from_cert : Name → Name
  key_name_from_cert cert_name =
      name_to_key cert_name (lib.components cert_name) (position (lib.components cert_name))

  pub record RemoteSignerClient : Type 0 where
    pub prefix : Name
    pub sig_type : lib.SigType
    pub key_name : Name
    pub cert_name : Option Name
    pub public_key : Option (List ℕ)
    pub req_seq : ℕ

  unfoldable pub client_of : Name → Text ⊎ Cert → Text ⊎ RemoteSignerClient
  client_of prefix (inl e) = inl e
  client_of prefix (inr cert) = inr (record {
    prefix = prefix;
    sig_type = lib.sig_type cert;
    key_name = key_name_from_cert (lib.cert_name cert);
    cert_name = some (lib.cert_name cert);
    public_key = some (lib.public_key cert);
    req_seq = 1;
  })

  unfoldable pub read_cert : Name → Text ⊎ Data → Text ⊎ RemoteSignerClient
  read_cert prefix (inl e) = inl (codes "remote signer cert decode: " ++ e)
  read_cert prefix (inr data_) = client_of prefix (lib.decode_cert data_)

  unfoldable pub from_cert : Name → Wire → Text ⊎ RemoteSignerClient
  from_cert prefix cert_wire = read_cert prefix (lib.decode_data cert_wire)

  unfoldable pub answer : Text ⊎ Response → Text ⊎ List ℕ
  answer (inl e) = inl (codes "remote signer: undecodable reply: " ++ e)
  answer (inr denied) = inl (codes "remote signer denied the request")
  answer (inr (approved signature)) = inr signature

  unfoldable pub or_empty : Option (List ℕ) → List ℕ
  or_empty none = []
  or_empty (some body) = body

  unfoldable pub correlate : Name → Text ⊎ Data → Text ⊎ List ℕ
  correlate expected (inl e) = inl (codes "remote signer: undecodable Data: " ++ e)
  correlate expected (inr d) =
      if not (lib.same_name (lib.data_name d) expected)
      then inl (codes "remote signer: correlation mismatch")
      else answer (lib.decode_response (or_empty (lib.content d)))

  unfoldable pub receive : Name → Text ⊎ Wire → Text ⊎ List ℕ
  receive expected (inl e) = inl (codes "remote signer: no reply: " ++ e)
  receive expected (inr reply) = correlate expected (decode_reply reply)

  unfoldable pub send : Wire → Text ⊎ Name → World → (Text ⊎ List ℕ) × World
  send wire (inl e) w = (inl (codes "remote signer: own interest: " ++ e), w)
  send wire (inr expected) w =
      let (r, w') = lib.fetch_correlated expected wire w in (receive expected r, w')

  -- The Interest that asks for a signature.
  unfoldable pub request : RemoteSignerClient → List ℕ → Wire
  request c region = lib.build c.prefix (lib.encode_request c.req_seq region)

  -- A signature or the text of `TrustError::KeyStore`, and the client with its next request id.
  unfoldable pub sign :
      List ℕ → RemoteSignerClient → World → ((Text ⊎ List ℕ) × World) × RemoteSignerClient
  sign region c w = (
    send (request c region) (lib.interest_name (request c region)) w,
    record c { req_seq = (c.req_seq + 1) % 2 ^ 64 },
  )
