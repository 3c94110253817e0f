-- ===== src/Enroll/Persistence.antt =====
-- Which identities can be stored, and that a stored one comes back.
use ndn_mobile.Prelude.{
  ℕ, ◌≡◌, ◌≢◌, ◌≤◌, ◌<◌, ◌+◌, ◌-◌, ◌*◌, ◌^◌, min, refl, subst, ◌∙◌, arith, false, none, some,
  Option-cases, List, ◌++◌, ◌⊎◌, inl, inr,
}
use ndn_mobile.Text.{Text, codes}
use ndn_mobile.Enroll.{
  EnrollError, key, not_exportable, safebag, and_then, map_err, Library, EnrollConfig,
}
use ndn_mobile.Enroll.Yields.{Yields, holds, bind-Yields, bind-Yields_both}
use ndn_mobile.Enroll.Identity.{
  Keys, EnrolledIdentity, is_exportable, generate_identity, until_ns, saturated,
}
use ndn_mobile.Enroll.Provenance.{Method, enroll, is_software, enroll-IsCertified}
use ndn_mobile.Enroll.Safebag.{
  Bags, Algorithm, ed25519, ecdsa_p256, other, to_safebag, load_identity, restore,
}

-- The end of a self-signed certificate's validity is the asked one, in nanoseconds, cut off at the
-- largest 64-bit number, and so never before its start, however long the time asked for.
pub until_ns_bounds :
    (now_ns validity_secs : ℕ)
    → now_ns < 2 ^ 64
    → (until_ns now_ns validity_secs ≡ min (now_ns + validity_secs * 1000000000) (2 ^ 64 - 1))
      × (now_ns ≤ until_ns now_ns validity_secs)
unfolding until_ns saturated
until_ns_bounds now_ns validity_secs h = (omega arith, omega arith)

map_io-eq_inr :
    {W A : Type 0} (f : Text → EnrollError) (r : (Text ⊎ A) × W) (a : A) (w : W)
    → map_err {W = W} f r.0 r.1 ≡ (inr a, w)
    → r ≡ (inr a, w)
map_io-eq_inr f (inl e, v) a w h = ground arith
map_io-eq_inr f (inr b, v) a w h = ground arith

map_err-Yields :
    {W A : Type 0} (f : Text → EnrollError) (x y : Text ⊎ A)
    → x ≡ y
    → Yields {W = W} (λ a. x ≡ inr a) (map_err f y)
map_err-Yields f x (inl e) q w = tt
map_err-Yields f x (inr a) q w = q

module _ (lib : Library) (keys : Keys lib) where
  open lib use {World, Name}

  -- The signer is that of the key that the exported bytes make, with the certificate's name.
  abbrev pub IsOwnKey : EnrolledIdentity lib → Type 0
  IsOwnKey id =
      (made : keys.Ed25519) × (pkcs8 : List ℕ) × (restored : keys.Ed25519) × (id.exportable
        ≡ some pkcs8)
      × (keys.ed25519_to_pkcs8 made ≡ inr pkcs8)
      × (keys.ed25519_from_pkcs8 pkcs8 id.key_name ≡ inr restored)
      × (id.signer ≡ keys.ed25519_signer (keys.ed25519_with_cert_name id.key_name restored))

  own-Yields :
      (name : Name) (validity_secs : ℕ)
      → Yields IsOwnKey (generate_identity lib keys name validity_secs)
  unfolding generate_identity
  own-Yields name validity_secs = bind-Yields IsOwnKey _ _ λ key_name.
      bind-Yields IsOwnKey _ _ λ made. bind-Yields IsOwnKey _ _ λ pubkey.
        bind-Yields IsOwnKey _ _ λ now. bind-Yields IsOwnKey _ _ λ cert_wire.
          bind-Yields_both (λ pkcs8. keys.ed25519_to_pkcs8 made ≡ inr pkcs8) IsOwnKey _ _
            (map_err-Yields key _ _ refl)
            λ pkcs8 written.
              bind-Yields_both (λ k. keys.ed25519_from_pkcs8 pkcs8 key_name ≡ inr k) IsOwnKey _ _
                (map_err-Yields key _ _ refl)
                λ restored read w. (made, pkcs8, restored, refl, written, read, refl)

  -- Self-signed under its key's name, with its certificate and its private key at hand.
  abbrev pub IsStorable : EnrolledIdentity lib → Type 0
  IsStorable id = (id.cert_name ≡ id.key_name) × (id.certificate ≢ none) × (id.exportable ≢ none)

  generate-Yields :
      (name : Name) (validity_secs : ℕ)
      → Yields IsStorable (generate_identity lib keys name validity_secs)
  unfolding generate_identity
  generate-Yields name validity_secs = bind-Yields IsStorable _ _ λ key_name.
      bind-Yields IsStorable _ _ λ generated. bind-Yields IsStorable _ _ λ pubkey.
        bind-Yields IsStorable _ _ λ now. bind-Yields IsStorable _ _ λ cert_wire.
          bind-Yields IsStorable _ _ λ pkcs8.
            bind-Yields IsStorable _ _ λ restored w. (refl, (λ e. ground arith), λ e. ground arith)

  -- An identity that `generate_identity` returns, whatever the world did, has the name of its key as
  -- its certificate's name, and both the certificate and an exportable private key, which are what
  -- storing it takes.
  pub generate_identity-IsStorable :
      (name : Name) (validity_secs : ℕ) (w w' : World) (id : EnrolledIdentity lib)
      → generate_identity lib keys name validity_secs w ≡ (inr id, w')
      → IsStorable id
  generate_identity-IsStorable name validity_secs w w' id =
      holds IsStorable (generate_identity lib keys name validity_secs) w w' id
        (generate-Yields name validity_secs)

  module _ (bags : Bags lib) where
    open bags use {Bag}

    not_exported :
        (v : World) (id : EnrolledIdentity lib) (password : List ℕ)
        → is_exportable lib keys id ≡ false
        → to_safebag lib keys bags password id v ≡ (inl not_exportable, v)
    unfolding to_safebag is_exportable and_then
    not_exported v id password h = elim (Option-cases id.exportable) [
      | inl n ↦ simp n
      | inr (k, n) ↦ absurd (ground (arith, n, h))
    ]

    -- An identity that a custodian's key was enrolled for is never written to a safe bag, under any
    -- password: the call fails with `NotExportable` and does nothing else.
    pub custodian-not_exportable :
        (cfg : EnrollConfig lib) (m : Method lib keys) (w w' v : World) (id : EnrolledIdentity lib)
        (password : List ℕ)
        → is_software lib keys m ≡ false
        → enroll lib keys cfg m w ≡ (inr id, w')
        → to_safebag lib keys bags password id v ≡ (inl not_exportable, v)
    custodian-not_exportable cfg m w w' v id password s e =
        not_exported v id password ((enroll-IsCertified lib keys cfg m w w' id e).1 ∙ s)

    encrypted :
        (id : EnrolledIdentity lib) (pkcs8 password : List ℕ) (w w' : World) (bag : Bag)
        → id.exportable ≡ some pkcs8
        → to_safebag lib keys bags password id w ≡ (inr bag, w')
        → (certificate : List ℕ) × (bags.encrypt certificate pkcs8 password w ≡ (inr bag, w'))
    unfolding to_safebag and_then
    encrypted id pkcs8 password w w' bag x e = elim (Option-cases id.certificate) [
      | inl n ↦ absurd (ground (arith, simp (x, n) at e))
      | inr (c, n) ↦
          (c, map_io-eq_inr safebag (bags.encrypt c pkcs8 password w) bag w' (simp (x, n) at e))
    ]

    -- What loading a key of each kind comes to: the signer of that kind's own key, or the error that
    -- its bytes are refused with, or the refusal of a kind that is not supported.
    abbrev pub Restores :
        Algorithm → (pkcs8 : List ℕ) → Name → (EnrollError ⊎ lib.Signer) × World → World → Type 0
    Restores ed25519 pkcs8 name r v =
        ((k : keys.Ed25519)
          → keys.ed25519_from_pkcs8 pkcs8 name ≡ inr k
          → r ≡ (inr (keys.ed25519_signer k), v))
        × ((e : Text) → keys.ed25519_from_pkcs8 pkcs8 name ≡ inl e → r ≡ (inl (key e), v))
    Restores ecdsa_p256 pkcs8 name r v =
        ((k : keys.Ecdsa)
          → keys.ecdsa_from_pkcs8 pkcs8 name ≡ inr k
          → r ≡ (inr (keys.ecdsa_signer k), v))
        × ((e : Text) → keys.ecdsa_from_pkcs8 pkcs8 name ≡ inl e → r ≡ (inl (key e), v))
    Restores (other oid) pkcs8 name r v =
        r ≡ (inl (key (codes "unsupported key algorithm " ++ oid)), v)

    restore-Restores :
        (alg : Algorithm) (pkcs8 : List ℕ) (name : Name) (v : World)
        → Restores alg pkcs8 name (restore lib keys bags pkcs8 name alg v) v
    unfolding restore and_then
    restore-Restores ed25519 pkcs8 name v = (λ k q. rw q refl, λ e q. rw q refl)
    restore-Restores ecdsa_p256 pkcs8 name v = (λ k q. rw q refl, λ e q. rw q refl)
    restore-Restores (other oid) pkcs8 name v = refl

    -- Where opening a safe bag with the password it was made under gives the key and its kind: an
    -- identity's key that was stored is loaded by the signers of its own kind, under the name asked
    -- for. The signer is that of the key that the stored bytes make; bytes that are refused, and a kind
    -- that is neither Ed25519 nor ECDSA, are key errors; and the world is left as it is.
    pub load_identity-to_safebag :
        (kind : List ℕ → Algorithm)
        → ((certificate pkcs8 password : List ℕ) (w w' : World) (bag : Bag)
            → bags.encrypt certificate pkcs8 password w ≡ (inr bag, w')
            → (bags.decrypt_pkcs8 bag password ≡ inr pkcs8)
              × (bags.algorithm bag password ≡ inr (kind pkcs8)))
        → (id : EnrolledIdentity lib) (pkcs8 password : List ℕ) (name : Name) (w w' v : World)
          (bag : Bag)
        → id.exportable ≡ some pkcs8
        → to_safebag lib keys bags password id w ≡ (inr bag, w')
        → Restores (kind pkcs8) pkcs8 name (load_identity lib keys bags bag password name v) v
    unfolding load_identity and_then
    load_identity-to_safebag kind opens id pkcs8 password name w w' v bag x e =
        let (c, made) = encrypted id pkcs8 password w w' bag x e in
        let (k, a) = opens c pkcs8 password w w' bag made in
        rw (k, a) (restore-Restores (kind pkcs8) pkcs8 name v)

    -- Where opening a safe bag with the password it was made under gives the key and its kind, and the
    -- kind of the bytes that an Ed25519 key is written as is Ed25519: an identity that
    -- `generate_identity` returns, stored under any password and loaded with it under its key's name,
    -- comes back as the signer of the same key; the one it had differs by the certificate's name alone.
    pub generate_identity-comes_back :
        (kind : List ℕ → Algorithm)
        → ((certificate pkcs8 password : List ℕ) (w w' : World) (bag : Bag)
            → bags.encrypt certificate pkcs8 password w ≡ (inr bag, w')
            → (bags.decrypt_pkcs8 bag password ≡ inr pkcs8)
              × (bags.algorithm bag password ≡ inr (kind pkcs8)))
        → ((k : keys.Ed25519) (pkcs8 : List ℕ)
            → keys.ed25519_to_pkcs8 k ≡ inr pkcs8
            → kind pkcs8 ≡ ed25519)
        → (name : Name) (validity_secs : ℕ) (password : List ℕ) (w w1 w2 w3 v : World)
          (id : EnrolledIdentity lib) (bag : Bag)
        → generate_identity lib keys name validity_secs w ≡ (inr id, w1)
        → to_safebag lib keys bags password id w2 ≡ (inr bag, w3)
        → (k : keys.Ed25519) × (id.signer
            ≡ keys.ed25519_signer (keys.ed25519_with_cert_name id.key_name k))
          × (load_identity lib keys bags bag password id.key_name v
              ≡ (inr (keys.ed25519_signer k), v))
    generate_identity-comes_back kind opens is_ed name validity_secs password w w1 w2 w3 v id bag g
          t =
        let (made, pkcs8, k, x, written, read, own) =
          holds IsOwnKey (generate_identity lib keys name validity_secs) w w1 id
            (own-Yields name validity_secs) g in
        let r = load_identity-to_safebag kind opens id pkcs8 password id.key_name w2 w3 v bag x t in
        let r' =
          subst
            (λ a.
              Restores a pkcs8 id.key_name (load_identity lib keys bags bag password id.key_name v)
                v)
            (is_ed made pkcs8 written) r in
        (k, own, r'.0 k read)
