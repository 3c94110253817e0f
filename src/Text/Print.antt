-- ===== src/Text/Print.antt =====
-- Numbers in decimal, as `to_string` writes them.
use ndn_mobile.Prelude.{ℕ, zero, suc, ◌+◌, ◌/◌, ◌%◌, ltb, true, false, [], ◌∷◌, ◌++◌}
use ndn_mobile.Text.{Text}

-- The fuel is one round for each digit; a number has at most as many as its value, and one.
unfoldable digits : ℕ → ℕ → Text
digits zero n = []
digits (suc fuel) n = elim (ltb n 10) [
  | true ↦ (b'0' + n) ∷ []
  | false ↦ digits fuel (n / 10) ++ (b'0' + n % 10) ∷ []
]

unfoldable pub decimal : ℕ → Text
unfolding digits
decimal n = digits (suc n) n

-- `i32`, by its value.
pub data ℤ : Type 0 where
  pos : ℕ → ℤ
  negsuc : ℕ → ℤ

unfoldable pub signed : ℤ → Text
unfolding decimal
signed (pos n) = decimal n
signed (negsuc n) = b'-' ∷ decimal (suc n)
