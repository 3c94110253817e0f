-- ===== src/Enroll/Yields.antt =====
-- What the results of calls have in common, through the steps of a call.
use ndn_mobile.Prelude.{◌≡◌, subst, ◌⊎◌, inl, inr}
use ndn_mobile.Enroll.{EnrollError, M, and_then, ◌>>=◌}

module _ {W A : Type 0} (P : A → Type 0) where
  abbrev pub On : (EnrollError ⊎ A) × W → Type 0
  On (inl e, w) = Unit
  On (inr a, w) = P a

  -- Every result that a call returns has some property.
  abbrev pub Yields : M W A → Type 0
  Yields m = (w : W) → On (m w)

  pub holds : (m : M W A) (w w' : W) (a : A) → Yields m → m w ≡ (inr a, w') → P a
  holds m w w' a y e = subst On e (y w)

module _ {W A B : Type 0} (P : B → Type 0) (f : A → M W B) where
  and_then-On : (r : (EnrollError ⊎ A) × W) → ((a : A) → Yields P (f a)) → On P (and_then r f)
  unfolding and_then
  and_then-On (inl e, w) y = tt
  and_then-On (inr a, w) y = y a w

  pub bind-Yields : (m : M W A) → ((a : A) → Yields P (f a)) → Yields P (m >>= f)
  bind-Yields m y w = and_then-On (m w) y

module _ {W A B : Type 0} (Q : A → Type 0) (P : B → Type 0) (f : A → M W B) where
  and_then-On_both :
      (r : (EnrollError ⊎ A) × W) → On Q r → ((a : A) → Q a → Yields P (f a)) → On P (and_then r f)
  unfolding and_then
  and_then-On_both (inl e, w) q y = tt
  and_then-On_both (inr a, w) q y = y a q w

  pub bind-Yields_both :
      (m : M W A) → Yields Q m → ((a : A) → Q a → Yields P (f a)) → Yields P (m >>= f)
  bind-Yields_both m q y w = and_then-On_both (m w) (q w) y
