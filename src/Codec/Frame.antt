-- ===== src/Codec/Frame.antt =====
-- The fragments that `ndnts_frame` of codec.rs cuts a packet into, against a description by chunks.
use mathlib.Core.List.{flatten}
use ndn_mobile.Prelude.{ℕ, zero, suc, ◌+◌, ◌-◌, ◌≤◌, ◌<◌, ◌≡◌, refl, ap, arith, inl, inr}
use ndn_mobile.Prelude.{
  min, max, Bool, true, false, some, List, [], ◌∷◌, All, All_weaken, Bool-cases, ltb→lt,
}
use ndn_mobile.Prelude.{length, take, drop, ltb, length-drop, length-take, take-append-drop}
use ndn_mobile.Prelude.{◌⊎◌, map, leb, leb→le, bit_and_wrap7, ◌%◌, slice-min, drop-min}
use ndn_mobile.Codec.{header_of, frame_loop, ndnts_frame}

-- Consecutive pieces of `k` bytes, the last one shorter. The first argument bounds their number.
unfoldable pub chunks : ℕ → ℕ → List ℕ → List (List ℕ)
chunks zero k xs = []
chunks (suc n) k [] = []
chunks (suc n) k (x ∷ xs) = take k (x ∷ xs) ∷ chunks n k (drop k (x ∷ xs))

-- A header byte in front of each piece: the flag on the first, a seven-bit counter on all.
unfoldable pub with_headers : Bool → ℕ → List (List ℕ) → List (List ℕ)
with_headers first seq [] = []
with_headers first seq (c ∷ cs) =
    (header_of first seq ∷ c) ∷ with_headers false ((seq + 1) % 128) cs

pub flatten-chunks : (n k : ℕ) (xs : List ℕ) → 0 < k → length xs ≤ n → flatten (chunks n k xs) ≡ xs
unfolding chunks flatten
flatten-chunks zero k [] pos h = refl
flatten-chunks zero k (x ∷ xs) pos h = absurd (omega arith)
flatten-chunks (suc n) k [] pos h = refl
flatten-chunks (suc n) k (x ∷ xs) pos h =
    rw (flatten-chunks n k (drop k (x ∷ xs)) pos (omega (arith, length-drop k (x ∷ xs))))
      (take-append-drop k (x ∷ xs))

abbrev pub IsPiece : ℕ → List ℕ → Type 0
IsPiece k c = (0 < length c) × (length c ≤ k)

pub chunks-IsPiece : (n k : ℕ) (xs : List ℕ) → 0 < k → All (IsPiece k) (chunks n k xs)
unfolding chunks
chunks-IsPiece zero k xs pos = tt
chunks-IsPiece (suc n) k [] pos = tt
chunks-IsPiece (suc n) k (x ∷ xs) pos =
    let len = length-take k (x ∷ xs) in
    ((omega (arith, len), omega (arith, len)), chunks-IsPiece n k (drop k (x ∷ xs)) pos)

chunks-suc :
    (n k : ℕ) (xs : List ℕ)
    → 0 < length xs
    → chunks (suc n) k xs ≡ take k xs ∷ chunks n k (drop k xs)
unfolding chunks
chunks-suc n k [] h = absurd (omega arith)
chunks-suc n k (x ∷ xs) h = refl

chunks-nil : (n k : ℕ) (xs : List ℕ) → length xs ≡ 0 → chunks n k xs ≡ []
unfolding chunks
chunks-nil zero k xs h = refl
chunks-nil (suc n) k [] h = refl
chunks-nil (suc n) k (x ∷ xs) h = absurd (omega arith)

-- The loop from `offset` cuts the rest of the packet into pieces and numbers them from `seq`.
frame_loop-chunks :
    (fuel k offset seq : ℕ) (packet : List ℕ) (first : Bool)
    → 0 < k
    → seq < 128
    → length (drop offset packet) < fuel
    → frame_loop fuel packet k offset seq first
      ≡ some (with_headers first seq (chunks fuel k (drop offset packet)))
unfolding frame_loop with_headers
frame_loop-chunks zero k offset seq packet first pos small h = absurd (omega arith)
frame_loop-chunks (suc fuel) k offset seq packet first pos small h =
    let len = length-drop offset packet in
    let after = drop-min offset k packet in
    let end = min (offset + k) (length packet) in
    elim (Bool-cases (ltb offset (length packet))) [
      | inl e ↦
          rw (e, slice-min offset k packet, bit_and_wrap7 (seq + 1) (omega arith))
            (rw
              (
                chunks-suc fuel k (drop offset packet)
                    (omega (arith, len, ltb→lt offset (length packet) e)),
                ← after,
              )
              (rw (
                frame_loop-chunks fuel k end ((seq + 1) % 128) packet false pos (omega arith) (
                  rw after (
                    omega (
                      arith,
                      length-drop k (drop offset packet),
                      len,
                      ltb→lt offset (length packet) e,
                    ))))))
      | inr e ↦ rw (e, chunks-nil (suc fuel) k (drop offset packet) (ground arith))
    ]

-- A packet that does not fit is cut into pieces of one byte less than a fragment may have.
pub ndnts_frame-chunks :
    (packet : List ℕ) (max_payload : ℕ)
    → max_payload < length packet
    → ndnts_frame packet max_payload
      ≡ some (with_headers true 0 (chunks (length packet + 1) (max (max_payload - 1) 1) packet))
unfolding ndnts_frame
ndnts_frame-chunks packet max_payload h =
    let loop =
      frame_loop-chunks (length packet + 1) (max (max_payload - 1) 1) 0 0 packet true (omega arith)
        (omega arith) (omega arith) in
    ground (arith, loop)

with_headers-length :
    (m seq : ℕ) (first : Bool) (cs : List (List ℕ))
    → 2 ≤ m
    → All (IsPiece (max (m - 1) 1)) cs
    → All (λ f. (2 ≤ length f) × (length f ≤ m)) (with_headers first seq cs)
unfolding with_headers
with_headers-length m seq first [] two h = tt
with_headers-length m seq first (c ∷ cs) two h =
    ((omega arith, omega arith), with_headers-length m ((seq + 1) % 128) false cs two h.1)

-- What `ndnts_frame` promises its caller about the fragments of one packet.
pub record IsFraming (packet : List ℕ) (max_payload : ℕ) : Type 0 where
  pub frags : List (List ℕ)
  pub returns : ndnts_frame packet max_payload ≡ some frags
  pub bounded : 2 ≤ max_payload → All (λ f. length f ≤ max_payload) frags
  pub payload : (frags ≡ packet ∷ []) ⊎ (flatten (map (drop 1) frags) ≡ packet)

payload-with_headers :
    (first : Bool) (seq : ℕ) (cs : List (List ℕ)) → map (drop 1) (with_headers first seq cs) ≡ cs
unfolding with_headers
payload-with_headers first seq [] = refl
payload-with_headers first seq (c ∷ cs) =
    ap (λ r. c ∷ r) (payload-with_headers false ((seq + 1) % 128) cs)

-- For every packet and payload size `ndnts_frame` returns. No fragment is longer than the payload
-- size, if that is at least 2; and either the packet is the one fragment, or the fragments less
-- their header bytes are the packet, in order.
pub ndnts_frame-IsFraming : (packet : List ℕ) (max_payload : ℕ) → IsFraming packet max_payload
unfolding ndnts_frame
ndnts_frame-IsFraming packet max_payload = elim (Bool-cases (leb (length packet) max_payload)) [
  | inl e ↦ record {
    frags = packet ∷ [];
    returns = rw e;
    bounded = λ two. (leb→le (length packet) max_payload e, tt);
    payload = inl refl;
  }
  | inr e ↦
      let k = max (max_payload - 1) 1 in
      let cs = chunks (length packet + 1) k packet in
      record {
        frags = with_headers true 0 cs;
        returns = ndnts_frame-chunks packet max_payload (ground arith);
        bounded = λ two.
            All_weaken _ _ (with_headers true 0 cs) (λ f h. h.1)
              (with_headers-length max_payload 0 true cs two
                (chunks-IsPiece (length packet + 1) k packet (omega arith)));
        payload = inr (
            rw (payload-with_headers true 0 cs)
              (flatten-chunks (length packet + 1) k packet (omega arith) (omega arith)));
      }
]
