-- ===== src/Text/Order.antt =====
-- The order of texts is a strict total one.
use Prim.Native.Nat.{Ordering}
use ndn_mobile.Prelude.{◌≡◌, ◌↔◌, refl, arith, true, [], ◌∷◌}
use ndn_mobile.Text.{Text, cmp, same}

pub cmp_refl : (a : Text) → cmp a a ≡ Ordering.eq
unfolding cmp
cmp_refl [] = refl
cmp_refl (x ∷ a) = ground (arith, cmp_refl a)

pub eq_of_cmp : (a b : Text) → cmp a b ≡ Ordering.eq → a ≡ b
unfolding cmp
eq_of_cmp [] [] h = refl
eq_of_cmp [] (y ∷ b) h = cc
eq_of_cmp (x ∷ a) [] h = cc
eq_of_cmp (x ∷ a) (y ∷ b) h = ground (arith, eq_of_cmp a b)

pub cmp_flip : (a b : Text) → cmp a b ≡ Ordering.gt → cmp b a ≡ Ordering.lt
unfolding cmp
cmp_flip [] [] h = cc
cmp_flip [] (y ∷ b) h = cc
cmp_flip (x ∷ a) [] h = refl
cmp_flip (x ∷ a) (y ∷ b) h = ground (arith, cmp_flip a b)

pub cmp_trans :
    (a b c : Text) → cmp a b ≡ Ordering.lt → cmp b c ≡ Ordering.lt → cmp a c ≡ Ordering.lt
unfolding cmp
cmp_trans [] [] c h k = cc
cmp_trans [] (y ∷ b) [] h k = cc
cmp_trans [] (y ∷ b) (z ∷ c) h k = refl
cmp_trans (x ∷ a) [] c h k = cc
cmp_trans (x ∷ a) (y ∷ b) [] h k = cc
cmp_trans (x ∷ a) (y ∷ b) (z ∷ c) h k = ground (arith, cmp_trans a b c)

pub same_iff : (a b : Text) → (same a b ≡ true) ↔ (a ≡ b)
same_iff a b = (λ h. eq_of_cmp a b (ground arith), λ e. rw (e, cmp_refl b))
