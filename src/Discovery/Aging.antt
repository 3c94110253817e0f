-- ===== src/Discovery/Aging.antt =====
-- What pruning by age leaves in the table.
use ndn_mobile.Prelude.{
  ℕ, ◌≡◌, refl, if◌then◌else◌, Option, none, some, List, [], ◌∷◌, Bool-cases, inl, inr, subst,
}
use ndn_mobile.Text.{Text, same}
use ndn_mobile.Text.Order.{same_iff}
use ndn_mobile.Text.Map.{lookup, IsAscending, Below, lookup-Below}
use ndn_mobile.Discovery.{PeerEntry, alive, retain}

abbrev pub fresh : ℕ → Option PeerEntry → Option PeerEntry
fresh now none = none
fresh now (some e) = if alive now e then some e else none

Below-retain :
    (now : ℕ) (k : Text) (m : List (Text × PeerEntry)) → Below k m → Below k (retain now m)
unfolding retain
Below-retain now k [] b = tt
Below-retain now k ((j, e) ∷ m) b = elim (Bool-cases (alive now e)) [
  | inl h ↦ rw h (b.0, Below-retain now k m b.1)
  | inr h ↦ rw h (Below-retain now k m b.1)
]

pub retain-IsAscending :
    (now : ℕ) (m : List (Text × PeerEntry)) → IsAscending m → IsAscending (retain now m)
unfolding retain
retain-IsAscending now [] s = tt
retain-IsAscending now ((k, e) ∷ m) s = elim (Bool-cases (alive now e)) [
  | inl h ↦ rw h (Below-retain now k m s.0, retain-IsAscending now m s.1)
  | inr h ↦ rw h (retain-IsAscending now m s.1)
]

pub lookup-retain :
    (now : ℕ) (k : Text) (m : List (Text × PeerEntry))
    → IsAscending m
    → lookup k (retain now m) ≡ fresh now (lookup k m)
unfolding retain lookup
lookup-retain now k [] s = refl
lookup-retain now k ((j, e) ∷ m) s = elim (Bool-cases (alive now e)) [
  | inl h ↦ elim (Bool-cases (same j k)) [
    | inl i ↦ rw (h, i, h)
    | inr i ↦ rw (h, i, lookup-retain now k m s.1)
  ]
  | inr h ↦ elim (Bool-cases (same j k)) [
    | inl i ↦ rw (
      h,
      i,
      h,
      lookup-retain now k m s.1,
      lookup-Below k m (subst (λ t. Below t m) ((same_iff j k).0 i) s.0),
    )
    | inr i ↦ rw (h, i, lookup-retain now k m s.1)
  ]
]
