-- ===== src/Prelude/Bytes.antt =====
-- Bytes as native numbers below 256, and facts about them that a table settles.
use Prim.Native.Nat.{ℕ, zero, suc, ◌+◌, ◌*◌, ◌%◌, ◌<◌, bit_and}
use mathlib.Core.Path.{◌≡◌, refl}
use mathlib.Core.Bool.{Bool, true, false}
use mathlib.Core.List.{List, [], ◌∷◌}
use native.Mathlib.Omega.{arith}
use mathlib.Core.Logic.{inl, inr}
use native.Mathlib.Decide.{ℕ_discrete}
use ndn_mobile.Prelude.Tests.{◌==◌, ==_iff, Bool-cases, if◌then◌else◌}

-- Every element satisfies `P`.
abbrev pub All {ℓ κ} : {A : Type ℓ} → (A → Type κ) → List A → Type κ
All P [] = Unit
All P (x ∷ xs) = P x × All P xs

abbrev pub IsByte : ℕ → Type 0
IsByte b = b < 256

-- `from_be_bytes`: the first byte is the most significant one.
abbrev pub be_value : ℕ → List ℕ → ℕ
be_value acc [] = acc
be_value acc (b ∷ bs) = be_value (acc * 256 + b) bs

-- `test` passes for the numbers under `n`: what evaluation settles when `n` is a numeral.
passes : (ℕ → Bool) → ℕ → Bool
passes test zero = true
passes test (suc n) = if test n then passes test n else false

passes_at : (test : ℕ → Bool) (n : ℕ) → passes test n ≡ true → (b : ℕ) → b < n → test b ≡ true
unfolding passes
passes_at test zero ok b h = elim h [ ]
passes_at test (suc n) ok b h = elim (Bool-cases (test n)) [
  | inl e ↦ elim (ℕ_discrete b n) [
    | yes same ↦ rw same e
    | no other ↦ passes_at test n (rw e at ok) b (omega arith)
  ]
  | inr e ↦ cc
]

equal_at : (f g : ℕ → ℕ) (n : ℕ) → passes (λ b. f b == g b) n ≡ true → (b : ℕ) → b < n → f b ≡ g b
equal_at f g n ok b h = (==_iff (f b) (g b)).0 (passes_at (λ b. f b == g b) n ok b h)

-- The top bit of a number below 128 is clear.
pub bit_and_top_clear : (x : ℕ) → x < 128 → bit_and x 0x80 ≡ 0
unfolding passes
bit_and_top_clear = equal_at (λ x. bit_and x 0x80) (λ x. 0) 128 refl

-- Masking seven bits keeps a number below 128.
pub bit_and_mask7 : (x : ℕ) → x < 128 → bit_and x 0x7f ≡ x
unfolding passes
bit_and_mask7 = equal_at (λ x. bit_and x 0x7f) (λ x. x) 128 refl

-- One past the largest masked value wraps.
pub bit_and_wrap7 : (x : ℕ) → x < 129 → bit_and x 0x7f ≡ x % 128
unfolding passes
bit_and_wrap7 = equal_at (λ x. bit_and x 0x7f) (λ x. x % 128) 129 refl

-- The low half of a byte whose high half is 4.
pub bit_and_nibble : (x : ℕ) → x < 16 → bit_and (64 + x) 0x0f ≡ x
unfolding passes
bit_and_nibble = equal_at (λ x. bit_and (64 + x) 0x0f) (λ x. x) 16 refl
