-- ===== src/Text.antt =====
-- Text as the list of its Unicode scalar values, in the order of Rust's `str`: that of the UTF-8
-- bytes, which is the order of the scalar values.
pub mod Order
pub mod Map
pub mod Print
use Prim.Native.Char.{code}
use Prim.Native.Nat.{compare, Ordering}
use Prim.Native.String.{String}
use package.ndn_mobile.Prelude.{
  ℕ, ◌+◌, ◌/◌, ◌%◌, ltb, if◌then◌else◌, Bool, true, false, List, [], ◌∷◌, ◌++◌,
}

abbrev pub Text : Type 0
Text = List ℕ

-- A literal of the source.
abbrev pub codes : String → Text
codes String.[] = []
codes (String.◌∷◌ c s) = code c ∷ codes s

-- `Ord::cmp` of two texts.
unfoldable pub cmp : Text → Text → Ordering
cmp [] [] = Ordering.eq
cmp [] (b ∷ bs) = Ordering.lt
cmp (a ∷ as') [] = Ordering.gt
cmp (a ∷ as') (b ∷ bs) = elim (compare a b) [
  | Ordering.lt ↦ Ordering.lt
  | Ordering.eq ↦ cmp as' bs
  | Ordering.gt ↦ Ordering.gt
]

abbrev pub is_eq : Ordering → Bool
is_eq Ordering.eq = true
is_eq _ = false

-- `==` of two texts.
abbrev pub same : Text → Text → Bool
same a b = is_eq (cmp a b)

-- UTF-8, as `String::into_bytes` has it.
unfoldable pub encode_char : ℕ → List ℕ
encode_char c =
    if ltb c 128
    then c ∷ []
    else if ltb c 2048
    then (192 + c / 64) ∷ (128 + c % 64) ∷ []
    else if ltb c 65536
    then (224 + c / 4096) ∷ (128 + c / 64 % 64) ∷ (128 + c % 64) ∷ []
    else (240 + c / 262144) ∷ (128 + c / 4096 % 64) ∷ (128 + c / 64 % 64) ∷ (128 + c % 64) ∷ []

unfoldable pub into_bytes : Text → List ℕ
into_bytes [] = []
into_bytes (c ∷ s) = encode_char c ++ into_bytes s
