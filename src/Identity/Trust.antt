-- ===== src/Identity/Trust.antt =====
-- Trust anchors and trust contexts of the identity core.
use ndn_mobile.Prelude.{
  ℕ, Bool, true, Option, none, some, List, [], ◌∷◌, ◌++◌, ◌⊎◌, inl, inr, map, length,
}
use ndn_mobile.Text.{Text, codes}
use ndn_mobile.Types.{NdnContext, engine}
use ndn_mobile.Identity.{
  Parts, IdentityCore, Act, ◌>>=◌, ◌>>◌, return, map_err, get, modify, name_in,
}

module _ (p : Parts) where
  open p use {Cert, Context, Validator}

  unfoldable pub pin_trust_anchor : List ℕ → Act p Bool
  pin_trust_anchor cert_wire = do
    packet ←
        map_err p (λ e. engine (codes "trust anchor not a Data: " ++ e)) (p.decode_packet cert_wire)
    cert ←
        map_err p (λ e. engine (codes "trust anchor not a certificate: " ++ e))
          (p.decode_cert packet)
    modify p (λ s. record s { pinned_anchors = s.pinned_anchors ++ cert ∷ [] })
    return p true

  unfoldable pub add_anchors : List Cert → Validator → Validator
  add_anchors [] v = v
  add_anchors (cert ∷ certs) v = add_anchors certs (p.add_trust_anchor cert v)

  unfoldable pub adopt_contexts : List Context → Validator → Validator
  adopt_contexts [] v = v
  adopt_contexts (ctx ∷ ctxs) v = adopt_contexts ctxs (p.adopt_context ctx v)

  -- The certificate of a wire, where it is one.
  unfoldable pub ok : {A : Type 0} → Text ⊎ A → Option A
  ok (inl e) = none
  ok (inr a) = some a

  unfoldable pub and_decode : Option p.Packet → Option Cert
  and_decode none = none
  and_decode (some packet) = ok (p.decode_cert packet)

  unfoldable pub own_cert : Option (List ℕ) → Option Cert
  own_cert none = none
  own_cert (some cert_wire) = and_decode (ok (p.decode_packet cert_wire))

  unfoldable pub add_own : Option Cert → Validator → Validator
  add_own none v = v
  add_own (some cert) v = p.add_trust_anchor cert v

  unfoldable pub build_validator : IdentityCore p → Validator
  build_validator s =
      adopt_contexts (p.contexts s.keyring)
        (add_anchors s.pinned_anchors (add_own (own_cert s.cert_wire) p.hierarchical))

  unfoldable pub from_ctx : Context → NdnContext
  from_ctx c = record {
    namespace = p.to_string (p.namespace c);
    version = p.version c;
    anchor_count = length (p.anchors c);
    enforces_hierarchy = p.enforces_hierarchy c;
  }

  -- The context that the keyring has for the namespace afterwards.
  unfoldable pub join_context : List ℕ → ℕ → Act p NdnContext
  join_context context_wire version = do
    ctx ←
        map_err p (λ e. engine (codes "malformed trust context: " ++ e))
          (p.decode_context context_wire version)
    modify p (λ s. record s { keyring = p.adopt ctx s.keyring })
    get p (λ s. from_ctx (p.context_for (p.namespace ctx) s.keyring))

  unfoldable pub list_contexts : IdentityCore p → List NdnContext
  list_contexts s = map from_ctx (p.contexts s.keyring)

  unfoldable pub forget_context : Text → Act p Bool
  forget_context namespace = do
    ns ← name_in p namespace
    found ← get p (λ s. (p.forget ns s.keyring).0)
    modify p (λ s. record s { keyring = (p.forget ns s.keyring).1 })
    return p found
