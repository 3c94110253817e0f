-- ===== src/Text/Map.antt =====
-- Rust's `BTreeMap` with texts as keys, as the list of its entries in ascending order.
use Prim.Native.Nat.{Ordering}
use ndn_mobile.Prelude.{◌≡◌, refl, sym, ap, ◌∙◌, arith, false, Option, none, some, List, [], ◌∷◌}
use ndn_mobile.Prelude.{if◌then◌else◌, Bool-cases, All, inl, inr, ◌⊎◌, subst}
use ndn_mobile.Text.{Text, cmp, is_eq, same}
use ndn_mobile.Text.Order.{cmp_refl, eq_of_cmp, cmp_flip, cmp_trans, same_iff}

cases : (o : Ordering) → (o ≡ Ordering.lt) ⊎ ((o ≡ Ordering.eq) ⊎ (o ≡ Ordering.gt))
cases Ordering.lt = inl refl
cases Ordering.eq = inr (inl refl)
cases Ordering.gt = inr (inr refl)

not_same : (k j : Text) → cmp k j ≡ Ordering.lt → same j k ≡ false
not_same k j h = elim (Bool-cases (same j k)) [
  | inl e ↦
      absurd (ground (arith, cmp_refl k, subst (λ t. cmp k t ≡ Ordering.lt) ((same_iff j k).0 e) h))
  | inr e ↦ e
]

same_flip : (i k j : Text) → same i k ≡ false → i ≡ j → same k j ≡ false
same_flip i k j h e = elim (Bool-cases (same k j)) [
  | inl f ↦ absurd (ground (arith, (same_iff i k).1 (e ∙ sym ((same_iff k j).0 f))))
  | inr f ↦ f
]

module _ {V : Type 0} where
  unfoldable pub lookup : Text → List (Text × V) → Option V
  lookup k [] = none
  lookup k ((j, v) ∷ m) = if same j k then some v else lookup k m

  unfoldable pub insert : Text → V → List (Text × V) → List (Text × V)
  insert k v [] = (k, v) ∷ []
  insert k v ((j, w) ∷ m) = elim (cmp k j) [
    | Ordering.lt ↦ (k, v) ∷ (j, w) ∷ m
    | Ordering.eq ↦ (k, v) ∷ m
    | Ordering.gt ↦ (j, w) ∷ insert k v m
  ]

  unfoldable pub remove : Text → List (Text × V) → List (Text × V)
  remove k [] = []
  remove k ((j, w) ∷ m) = if same j k then m else (j, w) ∷ remove k m

  abbrev pub Below : Text → List (Text × V) → Type 0
  Below k m = All (λ e. cmp k e.0 ≡ Ordering.lt) m

  -- The keys ascend, so no key stands twice.
  abbrev pub IsAscending : List (Text × V) → Type 0
  IsAscending [] = Unit
  IsAscending ((k, v) ∷ m) = Below k m × IsAscending m

  pub lookup-insert :
      (k j : Text) (v : V) (m : List (Text × V))
      → lookup j (insert k v m) ≡ (if same k j then some v else lookup j m)
  unfolding lookup insert
  lookup-insert k j v [] = refl
  lookup-insert k j v ((i, w) ∷ m) = elim (cases (cmp k i)) [
    | inl h ↦ rw (h, insert, lookup)
    | inr (inl h) ↦
        rw (h, insert, lookup)
          (elim (Bool-cases (same k j)) [
            | inl e ↦ rw e
            | inr e ↦ rw (e, subst (λ t. same t j ≡ false) (eq_of_cmp k i h) e)
          ])
    | inr (inr h) ↦
        rw (h, insert, lookup, lookup-insert k j v m)
          (elim (Bool-cases (same i j)) [
            | inl e ↦ rw (e, subst (λ t. same k t ≡ false) ((same_iff i j).0 e) (ap is_eq h))
            | inr e ↦ rw e
          ])
  ]

  Below-insert :
      (j k : Text) (v : V) (m : List (Text × V))
      → cmp j k ≡ Ordering.lt
      → Below j m
      → Below j (insert k v m)
  unfolding insert
  Below-insert j k v [] h b = (h, tt)
  Below-insert j k v ((i, w) ∷ m) h b = ground (arith, Below-insert j k v m h b.1)

  Below-trans : (j k : Text) (m : List (Text × V)) → cmp j k ≡ Ordering.lt → Below k m → Below j m
  Below-trans j k [] h b = tt
  Below-trans j k ((i, w) ∷ m) h b = (cmp_trans j k i h b.0, Below-trans j k m h b.1)

  pub insert-IsAscending :
      (k : Text) (v : V) (m : List (Text × V)) → IsAscending m → IsAscending (insert k v m)
  unfolding insert
  insert-IsAscending k v [] s = (tt, tt)
  insert-IsAscending k v ((j, w) ∷ m) s = elim (cases (cmp k j)) [
    | inl h ↦ rw (h, insert, IsAscending) ((h, Below-trans k j m h s.0), s)
    | inr (inl h) ↦
        rw (h, insert, IsAscending) (subst (λ t. Below t m) (sym (eq_of_cmp k j h)) s.0, s.1)
    | inr (inr h) ↦
        rw (h, insert, IsAscending)
          (Below-insert j k v m (cmp_flip k j h) s.0, insert-IsAscending k v m s.1)
  ]

  Below-remove : (j k : Text) (m : List (Text × V)) → Below j m → Below j (remove k m)
  unfolding remove
  Below-remove j k [] b = tt
  Below-remove j k ((i, w) ∷ m) b = ground (arith, Below-remove j k m b.1)

  pub remove-IsAscending :
      (k : Text) (m : List (Text × V)) → IsAscending m → IsAscending (remove k m)
  unfolding remove
  remove-IsAscending k [] s = tt
  remove-IsAscending k ((j, w) ∷ m) s =
      ground (arith, remove-IsAscending k m s.1, Below-remove j k m s.0)

  pub lookup-Below : (k : Text) (m : List (Text × V)) → Below k m → lookup k m ≡ none
  unfolding lookup
  lookup-Below k [] b = refl
  lookup-Below k ((j, w) ∷ m) b = ground (arith, not_same k j b.0, lookup-Below k m b.1)

  pub lookup-remove :
      (k j : Text) (m : List (Text × V))
      → IsAscending m
      → lookup j (remove k m) ≡ (if same k j then none else lookup j m)
  unfolding lookup remove
  lookup-remove k j [] s = ground arith
  lookup-remove k j ((i, w) ∷ m) s = elim (Bool-cases (same i k)) [
    | inl e ↦ elim (Bool-cases (same k j)) [
      | inl f ↦ rw (
        e,
        f,
        lookup-Below j m (subst (λ t. Below t m) ((same_iff i k).0 e ∙ (same_iff k j).0 f) s.0),
      )
      | inr f ↦ rw (e, f, subst (λ t. same t j ≡ false) (sym ((same_iff i k).0 e)) f)
    ]
    | inr e ↦
        rw (e, lookup-remove k j m s.1)
          (elim (Bool-cases (same i j)) [
            | inl f ↦ rw (f, same_flip i k j e ((same_iff i j).0 f))
            | inr f ↦ rw f
          ])
  ]
