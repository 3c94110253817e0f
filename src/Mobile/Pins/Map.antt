-- ===== src/Mobile/Pins/Map.antt =====
-- The map of pins.
use ndn_mobile.Prelude.{
  ℕ, ◌≡◌, ◌↔◌, refl, sym, ◌∙◌, subst, arith, Bool, true, false, ◌==◌, Bool-cases, if◌then◌else◌,
  List, [], ◌∷◌, inl, inr,
}
use ndn_mobile.Mobile.{Library}
use ndn_mobile.Mobile.Routes.{pin_of, contains}
use ndn_mobile.Mobile.Bulk.{pin, retain, reverted}

module _ (lib : Library) where
  open lib use {Name, same_name}

  -- No prefix is pinned twice.
  abbrev pub IsDistinct : List (Name × ℕ) → Type 0
  IsDistinct [] = Unit
  IsDistinct ((name, id) ∷ pins) = (contains lib (pin_of lib name pins) ≡ false) × IsDistinct pins

  abbrev pub member : Name → List Name → Bool
  member p [] = false
  member p (q ∷ qs) = if same_name q p then true else member p qs

  module _ (same_iff : (a b : Name) → (same_name a b ≡ true) ↔ (a ≡ b)) where
    flip : (a b : Name) → same_name a b ≡ false → same_name b a ≡ false
    flip a b h = elim (Bool-cases (same_name b a)) [
      | inl k ↦ absurd (ground (arith, h, (same_iff a b).1 (sym ((same_iff b a).0 k))))
      | inr k ↦ k
    ]

    pub contains-pin :
        (p prefix : Name) (id : ℕ) (pins : List (Name × ℕ))
        → contains lib (pin_of lib p (pin lib prefix id pins))
          ≡ (if same_name prefix p then true else contains lib (pin_of lib p pins))
    unfolding pin_of pin contains
    contains-pin p prefix id [] = elim (Bool-cases (same_name prefix p)) [
      | inl h ↦ rw h refl
      | inr h ↦ rw h refl
    ]
    contains-pin p prefix id ((name, old) ∷ pins) = elim (Bool-cases (same_name name prefix)) [
      | inl h ↦
          let q = (same_iff name prefix).0 h in
          elim (Bool-cases (same_name name p)) [
            | inl k ↦ rw (h, k, subst (λ t. same_name t p ≡ true) q k) refl
            | inr k ↦ rw (h, k, subst (λ t. same_name t p ≡ false) q k) refl
          ]
      | inr h ↦ elim (Bool-cases (same_name name p)) [
        | inl k ↦ elim (Bool-cases (same_name prefix p)) [
          | inl l ↦ rw (h, k, l) refl
          | inr l ↦ rw (h, k, l) refl
        ]
        | inr k ↦ rw (h, k) (contains-pin p prefix id pins)
      ]
    ]

    pub pin-IsDistinct :
        (prefix : Name) (id : ℕ) (pins : List (Name × ℕ))
        → IsDistinct pins
        → IsDistinct (pin lib prefix id pins)
    unfolding pin_of pin contains
    pin-IsDistinct prefix id [] d = (refl, tt)
    pin-IsDistinct prefix id ((name, old) ∷ pins) d = elim (Bool-cases (same_name name prefix)) [
      | inl h ↦ rw h d
      | inr h ↦ rw h (
        contains-pin name prefix id pins ∙ rw (flip name prefix h) d.0,
        pin-IsDistinct prefix id pins d.1,
      )
    ]

    contains-retain_absent :
        (p : Name) (id : ℕ) (pins : List (Name × ℕ))
        → contains lib (pin_of lib p pins) ≡ false
        → contains lib (pin_of lib p (retain lib id pins)) ≡ false
    unfolding retain pin_of contains
    contains-retain_absent p id [] h = refl
    contains-retain_absent p id ((name, fid) ∷ pins) h = elim (Bool-cases (same_name name p)) [
      | inl k ↦ absurd (ground (arith, rw k at h))
      | inr k ↦ elim (Bool-cases (fid == id)) [
        | inl f ↦ rw f (contains-retain_absent p id pins (rw k at h))
        | inr f ↦ rw (f, k) (contains-retain_absent p id pins (rw k at h))
      ]
    ]

    member-reverted_absent :
        (p : Name) (id : ℕ) (pins : List (Name × ℕ))
        → contains lib (pin_of lib p pins) ≡ false
        → member p (reverted lib id pins) ≡ false
    unfolding reverted pin_of contains
    member-reverted_absent p id [] h = refl
    member-reverted_absent p id ((name, fid) ∷ pins) h = elim (Bool-cases (same_name name p)) [
      | inl k ↦ absurd (ground (arith, rw k at h))
      | inr k ↦ elim (Bool-cases (fid == id)) [
        | inl f ↦ rw (f, k) (member-reverted_absent p id pins (rw k at h))
        | inr f ↦ rw f (member-reverted_absent p id pins (rw k at h))
      ]
    ]

    -- The pins that are left are those of the prefixes that are not reverted.
    pub contains-retain :
        (p : Name) (id : ℕ) (pins : List (Name × ℕ))
        → IsDistinct pins
        → contains lib (pin_of lib p (retain lib id pins))
          ≡ (if member p (reverted lib id pins) then false else contains lib (pin_of lib p pins))
    unfolding retain reverted pin_of contains
    contains-retain p id [] d = refl
    contains-retain p id ((name, fid) ∷ pins) d = elim (Bool-cases (same_name name p)) [
      | inl k ↦
          let absent =
            subst (λ t. contains lib (pin_of lib t pins) ≡ false) ((same_iff name p).0 k) d.0 in
          elim (Bool-cases (fid == id)) [
            | inl f ↦ rw (f, k) (contains-retain_absent p id pins absent)
            | inr f ↦ rw (f, k, member-reverted_absent p id pins absent) refl
          ]
      | inr k ↦ elim (Bool-cases (fid == id)) [
        | inl f ↦ rw (f, k) (contains-retain p id pins d.1)
        | inr f ↦ rw (f, k) (contains-retain p id pins d.1)
      ]
    ]

    pub retain-IsDistinct :
        (id : ℕ) (pins : List (Name × ℕ)) → IsDistinct pins → IsDistinct (retain lib id pins)
    unfolding retain
    retain-IsDistinct id [] d = tt
    retain-IsDistinct id ((name, fid) ∷ pins) d = elim (Bool-cases (fid == id)) [
      | inl f ↦ rw f (retain-IsDistinct id pins d.1)
      | inr f ↦ rw f (contains-retain_absent name id pins d.0, retain-IsDistinct id pins d.1)
    ]
