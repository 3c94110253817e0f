-- ===== src/Identity/Atomic.antt =====
-- What a failed call leaves of the identity.
use ndn_mobile.Prelude.{
  ℕ, ◌≡◌, refl, ◌∙◌, Bool-cases, Option, none, some, List, [], ◌∷◌, ◌⊎◌, inl, inr,
}
use ndn_mobile.Text.{Text}
use ndn_mobile.Types.{NdnError}
use ndn_mobile.Enroll.{EnrollConfig}
use ndn_mobile.Enroll.Identity.{EnrolledIdentity}
use ndn_mobile.Identity.{
  Parts, IdentityCore, EnclaveBackend, Act, and_then, bind, return, lift, map_err, map_io, ok_or,
  name_in, set_identity, set_cert,
}
use ndn_mobile.Identity.Load.{
  NdnEnrollConfig, enrolling, install, persist, config_of, enroll_with_token, generate,
  use_remote_signer,
}
use ndn_mobile.Identity.Enclave.{
  available, non_empty, fresh_key_name, enroll_with_token_enclave, generate_identity_enclave,
  load_identity_enclave,
}

module _ (p : Parts) where
  -- The same identity and certificate.
  abbrev pub IsSame : IdentityCore p → IdentityCore p → Type 0
  IsSame s s' = (s'.identity ≡ s.identity) × (s'.cert_wire ≡ s.cert_wire)

  -- The result of a call in the state `s`: a failure that changed neither, or a success.
  abbrev pub IsKept : {A : Type 0} → IdentityCore p → (NdnError ⊎ A) × IdentityCore p → Type 0
  IsKept s (inl e, t) = IsSame s t
  IsKept s (inr a, t) = Unit

  -- Whatever comes of it, neither changes.
  record IsQuiet {A : Type 0} (m : Act p A) : Type 0 where
    same : (s : IdentityCore p) → IsSame s (m s).1

  record IsAtomic {A : Type 0} (m : Act p A) : Type 0 where
    kept : (s : IdentityCore p) → IsKept s (m s)

  abbrev done : {A : Type 0} → A → Act p Unit
  done a = return p tt

  and_then-IsSame :
      {A B : Type 0} (k : A → Act p B) (s : IdentityCore p) (t : (NdnError ⊎ A) × IdentityCore p)
      → IsSame s t.1
      → ((a : A) → IsQuiet (k a))
      → IsSame s (and_then p t k).1
  unfolding and_then
  and_then-IsSame k s (inl e, t) h r = h
  and_then-IsSame k s (inr a, t) h r = let g = r a in ((g.same t).0 ∙ h.0, (g.same t).1 ∙ h.1)

  bind-IsQuiet :
      {A B : Type 0} (m : Act p A) (k : A → Act p B)
      → IsQuiet m
      → ((a : A) → IsQuiet (k a))
      → IsQuiet (bind p m k)
  bind-IsQuiet m k q r = record { same = λ s. and_then-IsSame k s (m s) (q.same s) r }

  later :
      {B : Type 0} (s t : IdentityCore p) (r : (NdnError ⊎ B) × IdentityCore p)
      → IsSame s t
      → IsKept t r
      → IsKept s r
  later s t (inl e, u) h g = (g.0 ∙ h.0, g.1 ∙ h.1)
  later s t (inr b, u) h g = tt

  and_then-IsKept :
      {A B : Type 0} (k : A → Act p B) (s : IdentityCore p) (t : (NdnError ⊎ A) × IdentityCore p)
      → IsSame s t.1
      → ((a : A) → IsAtomic (k a))
      → IsKept s (and_then p t k)
  unfolding and_then
  and_then-IsKept k s (inl e, t) h r = h
  and_then-IsKept k s (inr a, t) h r = let g = r a in later s t (k a t) h (g.kept t)

  bind-IsAtomic :
      {A B : Type 0} (m : Act p A) (k : A → Act p B)
      → IsQuiet m
      → ((a : A) → IsAtomic (k a))
      → IsAtomic (bind p m k)
  bind-IsAtomic m k q r = record { kept = λ s. and_then-IsKept k s (m s) (q.same s) r }

  lift-IsQuiet : {A : Type 0} (m : p.lib.World → A × p.lib.World) → IsQuiet (lift p m)
  unfolding lift
  lift-IsQuiet m = record { same = λ s. (refl, refl) }

  map_err-IsQuiet : {A : Type 0} (f : Text → NdnError) (r : Text ⊎ A) → IsQuiet (map_err p f r)
  unfolding map_err
  map_err-IsQuiet f (inl e) = record { same = λ s. (refl, refl) }
  map_err-IsQuiet f (inr a) = record { same = λ s. (refl, refl) }

  ok_or-IsQuiet : {A : Type 0} (e : NdnError) (o : Option A) → IsQuiet (ok_or p e o)
  unfolding ok_or
  ok_or-IsQuiet e none = record { same = λ s. (refl, refl) }
  ok_or-IsQuiet e (some a) = record { same = λ s. (refl, refl) }

  map_io-IsQuiet :
      {A : Type 0} (f : Text → NdnError) (m : p.lib.World → (Text ⊎ A) × p.lib.World)
      → IsQuiet (map_io p f m)
  map_io-IsQuiet f m = bind-IsQuiet (lift p m) (map_err p f) (lift-IsQuiet m) (map_err-IsQuiet f)

  name_in-IsQuiet : (text : Text) → IsQuiet (name_in p text)
  unfolding name_in
  name_in-IsQuiet text = ok_or-IsQuiet _ (p.parse text)

  -- Installing does not fail.
  install-IsAtomic :
      {A : Type 0} (id : EnrolledIdentity p.lib) (a : A)
      → IsAtomic (bind p (install p id) (λ _. return p a))
  unfolding install set_cert set_identity and_then
  install-IsAtomic id a = record { kept = λ s. tt }

  config_of-IsQuiet : (config : NdnEnrollConfig) → IsQuiet (config_of p config)
  unfolding config_of
  config_of-IsQuiet config = bind-IsQuiet _ _ (name_in-IsQuiet config.ca_prefix) λ ca.
      bind-IsQuiet _ _ (name_in-IsQuiet config.identity) λ id. record { same = λ s. (refl, refl) }

  available-IsQuiet : (enclave : EnclaveBackend) → IsQuiet (available p enclave)
  unfolding available
  available-IsQuiet enclave = record {
    same = λ s. elim (Bool-cases enclave.is_available) [
      | inl h ↦ rw h (refl, refl)
      | inr h ↦ rw h (refl, refl)
    ];
  }

  non_empty-IsQuiet : (pubkey : List ℕ) → IsQuiet (non_empty p pubkey)
  unfolding non_empty
  non_empty-IsQuiet [] = record { same = λ s. (refl, refl) }
  non_empty-IsQuiet (b ∷ pubkey) = record { same = λ s. (refl, refl) }

  fresh_key_name-IsQuiet : (id_name : p.lib.Name) → IsQuiet (fresh_key_name p id_name)
  unfolding fresh_key_name
  fresh_key_name-IsQuiet id_name =
      bind-IsQuiet _ _ (lift-IsQuiet p.keys.clock) λ now. record { same = λ s. (refl, refl) }

  persist-IsAtomic :
      (password : List ℕ) (id : EnrolledIdentity p.lib) → IsAtomic (persist p password id)
  unfolding persist enrolling
  persist-IsAtomic password id = bind-IsAtomic _ _ (map_io-IsQuiet _ _) λ bag. install-IsAtomic id _

  -- The calls that give the core another identity, but for `load_identity` and the restores.
  pub data Loading : Type 0 where
    by_token : NdnEnrollConfig → (token : Text) → Loading
    by_enclave_token : NdnEnrollConfig → (token : Text) → EnclaveBackend → Loading
    generated : (name : Text) → (password : List ℕ) → Loading
    generated_enclave : (name : Text) → EnclaveBackend → Loading
    loaded_enclave : (key_name cert_name : Text) → EnclaveBackend → Loading
    remote : (prefix : Text) → (cert_wire : List ℕ) → Loading

  abbrev pub loading : Loading → Act p Unit
  loading (by_token config token) = bind p (enroll_with_token p config token) done
  loading (by_enclave_token config token enclave) =
      bind p (enroll_with_token_enclave p config token enclave) done
  loading (generated name password) = bind p (generate p name password) done
  loading (generated_enclave name enclave) = bind p (generate_identity_enclave p name enclave) done
  loading (loaded_enclave key_name cert_name enclave) =
      bind p (load_identity_enclave p key_name cert_name enclave) done
  loading (remote prefix cert_wire) = bind p (use_remote_signer p prefix cert_wire) done

  ended :
      {A : Type 0} (m : Act p A) → IsAtomic m → (s : IdentityCore p) → IsKept s (bind p m done s)
  unfolding and_then
  ended {A = A} m a s = go (m s) (a.kept s)
    where
      go : (t : (NdnError ⊎ A) × IdentityCore p) → IsKept s t → IsKept s (and_then p t done)
      go (inl e, t) h = h
      go (inr a, t) h = tt

  -- Where a call that enrolls by a token, generates an identity, each with a software or an enclave
  -- key, loads an enclave key or uses a remote signer fails, whatever the world answers, it leaves
  -- the identity and the certificate as they were.
  pub loading-IsAtomic : (l : Loading) (s : IdentityCore p) → IsKept s (loading l s)
  unfolding enroll_with_token enroll_with_token_enclave generate generate_identity_enclave
      load_identity_enclave use_remote_signer enrolling set_identity set_cert and_then
  loading-IsAtomic (by_token config token) = ended _ (
      bind-IsAtomic _ _ (config_of-IsQuiet config)
        λ cfg. bind-IsAtomic _ _ (map_io-IsQuiet _ _) λ enrolled. persist-IsAtomic _ enrolled)
  loading-IsAtomic (by_enclave_token config token enclave) = ended _ (
      bind-IsAtomic _ _ (config_of-IsQuiet config) λ (cfg : EnrollConfig p.lib).
        bind-IsAtomic _ _ (available-IsQuiet enclave) λ pubkey.
          bind-IsAtomic _ _ (fresh_key_name-IsQuiet cfg.identity) λ key_name.
            bind-IsAtomic _ _ (map_io-IsQuiet _ _) λ enrolled. install-IsAtomic enrolled _)
  loading-IsAtomic (generated name password) = ended _ (
      bind-IsAtomic _ _ (name_in-IsQuiet name)
        λ id_name. bind-IsAtomic _ _ (map_io-IsQuiet _ _) λ id. persist-IsAtomic password id)
  loading-IsAtomic (generated_enclave name enclave) = ended _ (
      bind-IsAtomic _ _ (name_in-IsQuiet name) λ id_name.
        bind-IsAtomic _ _ (available-IsQuiet enclave) λ found.
          bind-IsAtomic _ _ (non_empty-IsQuiet found) λ pubkey.
            bind-IsAtomic _ _ (fresh_key_name-IsQuiet id_name) λ key_name.
              bind-IsAtomic _ _ (lift-IsQuiet _) λ now.
                bind-IsAtomic _ _ (map_io-IsQuiet _ _) λ cert_wire. record { kept = λ s. tt })
  loading-IsAtomic (loaded_enclave key_name cert_name enclave) = ended _ (
      bind-IsAtomic _ _ (name_in-IsQuiet key_name) λ kname.
        bind-IsAtomic _ _ (name_in-IsQuiet cert_name) λ cname.
          bind-IsAtomic _ _ (available-IsQuiet enclave) λ found.
            bind-IsAtomic _ _ (non_empty-IsQuiet found) λ pubkey. record { kept = λ s. tt })
  loading-IsAtomic (remote prefix cert_wire) = ended _ (
      bind-IsAtomic _ _ (name_in-IsQuiet prefix)
        λ name. bind-IsAtomic _ _ (map_err-IsQuiet _ _) λ signer. record { kept = λ s. tt })
