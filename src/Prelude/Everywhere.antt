-- ===== src/Prelude/Everywhere.antt =====
-- Lists all of whose elements satisfy a predicate.
use Prim.Native.Nat.{ℕ, zero, suc}
use mathlib.Core.Path.{◌≡◌, subst}
use mathlib.Core.Option.{some}
use mathlib.Core.List.{List, [], ◌∷◌}
use native.Mathlib.Omega.{arith}
use ndn_mobile.Prelude.Lists.{get_elem?}
use ndn_mobile.Prelude.Bytes.{All}

module _ {ℓ κ} {A : Type ℓ} (P : A → Type κ) where
  pub All-get_elem? : (xs : List A) (i : ℕ) (x : A) → get_elem? xs i ≡ some x → All P xs → P x
  All-get_elem? [] i x q ps = absurd (cc)
  All-get_elem? (y ∷ xs) zero x q (h, ps) = subst P (ground (arith, q)) h
  All-get_elem? (y ∷ xs) (suc i) x q (h, ps) = All-get_elem? xs i x q ps

  pub All_weaken {μ} : (Q : A → Type μ) (xs : List A) → ((x : A) → P x → Q x) → All P xs → All Q xs
  All_weaken Q [] f ps = tt
  All_weaken Q (x ∷ xs) f (h, ps) = (f x h, All_weaken Q xs f ps)
