-- ===== src/Codec/Nonce.antt =====
-- `patch_nonce` of codec.rs: where it writes, and where it should not.
use ndn_mobile.Prelude.{ℕ, ◌≤◌, ◌≡◌, refl, ap, ◌∙◌, length-append, arith}
use ndn_mobile.Prelude.{false, List, [], ◌∷◌, ◌++◌, length, ◌==◌, ◌&&◌}
use ndn_mobile.Codec.{patch_nonce, be_bytes4}

-- No two neighbours in `xs`, `next` after its end, read as the header of a nonce.
abbrev pub NoHeader : List ℕ → ℕ → Type 0
NoHeader [] next = Unit
NoHeader (a ∷ []) next = ((a == 0x0a) && (next == 0x04)) ≡ false
NoHeader (a ∷ b ∷ xs) next = (((a == 0x0a) && (b == 0x04)) ≡ false) × NoHeader (b ∷ xs) next

patch_nonce-skip :
    (a b : ℕ) (rest : List ℕ) (nonce : ℕ)
    → 4 ≤ length rest
    → ((a == 0x0a) && (b == 0x04)) ≡ false
    → patch_nonce (a ∷ b ∷ rest) nonce ≡ a ∷ patch_nonce (b ∷ rest) nonce
unfolding patch_nonce
patch_nonce-skip a b (c ∷ d ∷ e ∷ f ∷ rest) nonce h other = rw other
patch_nonce-skip a b (c ∷ d ∷ e ∷ []) nonce h other = absurd (omega arith)
patch_nonce-skip a b (c ∷ d ∷ []) nonce h other = absurd (omega arith)
patch_nonce-skip a b (c ∷ []) nonce h other = absurd (omega arith)
patch_nonce-skip a b [] nonce h other = absurd (omega arith)

-- The first place of the buffer that reads as the header of a nonce, with four bytes behind it, has
-- those four bytes overwritten; all else is kept.
pub patch_nonce_first :
    (before : List ℕ) (w x y z : ℕ) (after : List ℕ) (nonce : ℕ)
    → NoHeader before 0x0a
    → patch_nonce (before ++ (0x0a ∷ 0x04 ∷ w ∷ x ∷ y ∷ z ∷ after)) nonce
      ≡ before ++ (0x0a ∷ 0x04 ∷ (be_bytes4 nonce ++ after))
patch_nonce_first [] w x y z after nonce h = unfold patch_nonce in refl
patch_nonce_first (a ∷ []) w x y z after nonce h =
    patch_nonce-skip a 0x0a (0x04 ∷ w ∷ x ∷ y ∷ z ∷ after) nonce (omega arith) h
    ∙ ap (λ r. a ∷ r) (patch_nonce_first [] w x y z after nonce tt)
patch_nonce_first (a ∷ b ∷ before) w x y z after nonce h =
    patch_nonce-skip a b (before ++ (0x0a ∷ 0x04 ∷ w ∷ x ∷ y ∷ z ∷ after)) nonce
      (omega (arith, length-append before (0x0a ∷ 0x04 ∷ w ∷ x ∷ y ∷ z ∷ after))) h.0
    ∙ ap (λ r. a ∷ r) (patch_nonce_first (b ∷ before) w x y z after nonce h.1)

-- A buffer in which nothing reads as the header of a nonce is left alone.
pub patch_nonce_none : (buf : List ℕ) (nonce : ℕ) → NoHeader buf 0 → patch_nonce buf nonce ≡ buf
unfolding patch_nonce
patch_nonce_none (a ∷ b ∷ c ∷ d ∷ e ∷ f ∷ rest) nonce h =
    rw (h.0, patch_nonce_none (b ∷ c ∷ d ∷ e ∷ f ∷ rest) nonce h.1)
patch_nonce_none _ nonce h = refl

pub length-patch_nonce : (buf : List ℕ) (nonce : ℕ) → length (patch_nonce buf nonce) ≡ length buf
unfolding patch_nonce
length-patch_nonce (a ∷ b ∷ c ∷ d ∷ e ∷ f ∷ rest) nonce =
    ground (arith, length-patch_nonce (b ∷ c ∷ d ∷ e ∷ f ∷ rest) nonce)
length-patch_nonce _ nonce = refl
