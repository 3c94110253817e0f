-- ===== src/Enroll/Hex.antt =====
-- `hex_encode`, which shows a request id to the user.
use ndn_mobile.Prelude.{
  ℕ, ◌≡◌, refl, ap, arith, ◌<◌, ◌+◌, ◌*◌, ◌/◌, ◌%◌, ◌-◌, ltb, if◌then◌else◌, List, [], ◌∷◌, ◌++◌,
  append-nil, append_assoc, All, IsByte, sym, ◌∙◌,
}
use ndn_mobile.Text.{Text}

unfoldable pub digit : ℕ → ℕ
digit n = if ltb n 10 then b'0' + n else b'a' + (n - 10)

unfoldable pub fold : Text → List ℕ → Text
fold s [] = s
fold s (b ∷ bs) = fold (s ++ digit (b / 16) ∷ digit (b % 16) ∷ []) bs

unfoldable pub hex_encode : List ℕ → Text
hex_encode bytes = fold [] bytes

-- Reads pairs of hexadecimal digits.
value : ℕ → ℕ
value c = if ltb c b'a' then c - b'0' else c - b'a' + 10

pub decode : Text → List ℕ
decode [] = []
decode (h ∷ []) = []
decode (h ∷ l ∷ s) = (value h * 16 + value l) ∷ decode s

value-digit : (n : ℕ) → n < 16 → value (digit n) ≡ n
unfolding value digit
value-digit n h = ground arith

fold_append : (s : Text) (bs : List ℕ) → fold s bs ≡ s ++ fold [] bs
unfolding fold
fold_append s [] = sym (append-nil s)
fold_append s (b ∷ bs) =
    fold_append (s ++ digit (b / 16) ∷ digit (b % 16) ∷ []) bs
    ∙ append_assoc s (digit (b / 16) ∷ digit (b % 16) ∷ []) (fold [] bs)
    ∙ ap (λ t. s ++ t) (sym (fold_append (digit (b / 16) ∷ digit (b % 16) ∷ []) bs))

byte_of : (b : ℕ) → IsByte b → value (digit (b / 16)) * 16 + value (digit (b % 16)) ≡ b
byte_of b h =
    rw (value-digit (b / 16) (omega arith), value-digit (b % 16) (omega arith)) (omega arith)

-- For any bytes, a reader that takes hexadecimal digits in pairs gets them back from their hexadecimal
-- form.
pub decode-hex_encode : (bs : List ℕ) → All IsByte bs → decode (hex_encode bs) ≡ bs
unfolding decode hex_encode fold
decode-hex_encode [] a = refl
decode-hex_encode (b ∷ bs) a =
    rw (
      fold_append (digit (b / 16) ∷ digit (b % 16) ∷ []) bs,
      byte_of b a.0,
      decode-hex_encode bs a.1,
    )
