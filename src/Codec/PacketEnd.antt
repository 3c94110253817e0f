-- ===== src/Codec/PacketEnd.antt =====
-- The packet ends that the reassembler of codec.rs reads do not change as more bytes arrive.
use ndn_mobile.Prelude.{
  ℕ, ◌+◌, ◌%◌, ◌≤◌, ◌<◌, ◌-◌, ◌*◌, ◌^◌, ◌≡◌, ◌≢◌, refl, sym, ◌∙◌, arith, inl, inr,
}
use ndn_mobile.Prelude.{none, some, List, [], ◌∷◌, ◌++◌, length, drop, Option-cases}
use ndn_mobile.Prelude.{length-append, take-append, drop-append}
use ndn_mobile.Codec.{
  parse_varnumber, tlv_packet_end, type_end, length_end, usize_mod, get_from, within,
}

parse_varnumber-append :
    (xs ys : List ℕ) {v n : ℕ}
    → parse_varnumber xs ≡ some (v, n)
    → (parse_varnumber (xs ++ ys) ≡ some (v, n)) × (n ≤ length xs)
unfolding parse_varnumber
parse_varnumber-append [] ys h = cc
parse_varnumber-append (x ∷ xs) ys h =
    ground
      (arith, length-append xs ys, take-append 2 xs ys, take-append 4 xs ys, take-append 8 xs ys)

get_from-eq_some : (n : ℕ) (xs : List ℕ) → n ≤ length xs → get_from n xs ≡ some (drop n xs)
get_from-eq_some n xs h = ground arith

-- With both numbers read, the end is their sum.
tlv_packet_end-within :
    (xs : List ℕ) (t n v k : ℕ)
    → parse_varnumber xs ≡ some (t, n)
    → n ≤ length xs
    → parse_varnumber (drop n xs) ≡ some (v, k)
    → tlv_packet_end xs ≡ within xs ((n + k + v) % usize_mod)
unfolding tlv_packet_end type_end length_end
tlv_packet_end-within xs t n v k e le e' = rw (e, type_end, get_from-eq_some n xs le, e')

within-append :
    (xs ys : List ℕ) (total : ℕ) {e : ℕ}
    → within xs total ≡ some e
    → (within (xs ++ ys) total ≡ some e) × (e ≤ length xs)
within-append xs ys total h = ground (arith, length-append xs ys)

tlv_packet_end-append :
    (xs ys : List ℕ) {e : ℕ}
    → tlv_packet_end xs ≡ some e
    → (tlv_packet_end (xs ++ ys) ≡ some e) × (e ≤ length xs)
unfolding tlv_packet_end type_end length_end
tlv_packet_end-append xs ys h = elim (Option-cases (parse_varnumber xs)) [
  | inl e ↦ ground arith
  | inr ((t, n), e) ↦ elim (Option-cases (parse_varnumber (drop n xs))) [
    | inl e' ↦ ground arith
    | inr ((v, k), e') ↦
        let (first, le) = parse_varnumber-append xs ys e in
        let (second, _) = parse_varnumber-append (drop n xs) ys e' in
        let total = (n + k + v) % usize_mod in
        let (got, fits) =
          within-append xs ys total (sym (tlv_packet_end-within xs t n v k e le e') ∙ h) in
        (
          tlv_packet_end-within (xs ++ ys) t n v k first (omega (arith, length-append xs ys))
                (rw (drop-append n xs ys le) second)
              ∙ got,
          fits,
        )
  ]
]

-- No proper prefix of a whole packet counts as a packet.
pub tlv_packet_end-prefix :
    (xs ys : List ℕ)
    → tlv_packet_end (xs ++ ys) ≡ some (length (xs ++ ys))
    → ys ≢ []
    → tlv_packet_end xs ≡ none
tlv_packet_end-prefix xs [] whole more = absurd (more refl)
tlv_packet_end-prefix xs (y ∷ ys) whole more = elim (Option-cases (tlv_packet_end xs)) [
  | inl e ↦ e
  | inr (n, e) ↦ ground (arith, tlv_packet_end-append xs (y ∷ ys) e, length-append xs (y ∷ ys))
]

-- A packet that claims to be almost 2 ^ 64 bytes long has its size wrap around: ten bytes of it, or
-- fewer, already count as the whole packet.
pub tlv_packet_end_wraps :
    (type_byte j : ℕ) (rest : List ℕ)
    → type_byte ≤ 252
    → j < 10
    → tlv_packet_end (type_byte ∷ 255 ∷ 255 ∷ 255 ∷ 255 ∷ 255 ∷ 255 ∷ 255 ∷ 255 ∷ (246 + j) ∷ rest)
      ≡ some j
unfolding parse_varnumber
tlv_packet_end_wraps type_byte j rest small h =
    let sized = 255 ∷ 255 ∷ 255 ∷ 255 ∷ 255 ∷ 255 ∷ 255 ∷ 255 ∷ (246 + j) ∷ rest in
    let value = (2 ^ 56 - 1) * 256 + (246 + j) in
    let total : (1 + 9 + value) % usize_mod ≡ j = omega arith in
    tlv_packet_end-within (type_byte ∷ sized) type_byte 1 value 9 (ground arith) (omega arith)
      (ground arith)
    ∙ rw total (ground arith)
