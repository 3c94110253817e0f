-- ===== src/RemoteSigner/KeyName.antt =====
-- The key's name in a certificate's name.
use ndn_mobile.Prelude.{
  suc, ◌≡◌, ◌+◌, refl, ap, ◌∙◌, arith, true, false, some, List, [], ◌∷◌, ◌++◌, All, length,
  length-append, take,
}
use ndn_mobile.Text.{codes, same}
use ndn_mobile.RemoteSigner.{Library, moved, position, name_to_key, key_name_from_cert}

module _ (lib : Library) where
  open lib use {Name, Component}

  -- No component is `KEY`.
  abbrev pub IsIdentity : List Component → Type 0
  IsIdentity cs = All (λ c. same (lib.value c) (codes "KEY") ≡ false) cs

  position-append :
      (cs rest : List Component) (key : Component)
      → IsIdentity cs
      → same (lib.value key) (codes "KEY") ≡ true
      → position lib (cs ++ key ∷ rest) ≡ some (length cs)
  unfolding position moved
  position-append [] rest key i h = rw h refl
  position-append (c ∷ cs) rest key i h = rw (i.0, position-append cs rest key i.1 h) refl

  take_past :
      (cs rest : List Component) (key id : Component)
      → take (length cs + 2) (cs ++ key ∷ id ∷ rest) ≡ cs ++ key ∷ id ∷ []
  take_past [] rest key id = refl
  take_past (c ∷ cs) rest key id =
      ap (λ k. take k (c ∷ cs ++ key ∷ id ∷ rest)) {y = suc (length cs + 2)} (omega arith)
      ∙ ap (λ t. c ∷ t) (take_past cs rest key id)

  -- The key's name in a certificate's name is the identity, `KEY` and the key id, whatever follows,
  -- where the identity itself has no component `KEY`.
  pub key_name_from_cert-append :
      (cert_name : Name) (cs rest : List Component) (key id : Component)
      → lib.components cert_name ≡ cs ++ key ∷ id ∷ rest
      → IsIdentity cs
      → same (lib.value key) (codes "KEY") ≡ true
      → key_name_from_cert lib cert_name ≡ lib.from_components (cs ++ key ∷ id ∷ [])
  unfolding key_name_from_cert name_to_key
  key_name_from_cert-append cert_name cs rest key id e i h =
      rw (e, position-append cs (id ∷ rest) key i h)
        (ap lib.from_components (
          ap (λ k. take k (cs ++ key ∷ id ∷ rest)) {y = length cs + 2}
            (omega (arith, length-append cs (key ∷ id ∷ rest)))
          ∙ take_past cs rest key id))
