-- ===== src/Offer/Manifest.antt =====
-- The manifest's versions.
use ndn_mobile.Prelude.{
  ℕ, zero, suc, ◌≡◌, ◌≢◌, ◌≤◌, ◌<◌, ◌+◌, refl, ap, ◌∙◌, arith, Bool-cases, Option-cases, Option,
  none, some, List, [], ◌∷◌, inl, inr, null, length, take, get_elem?, length-take,
}
use ndn_mobile.Text.{Text, codes}
use ndn_mobile.Text.Map.{lookup, IsAscending, insert-IsAscending, remove-IsAscending}
use ndn_mobile.Offer.{
  Library, OfferBoard, OfferEntry, build_manifest, rebuild_manifest, first_answer, serve_manifest,
  start, internal_content_prefix,
}
use ndn_mobile.Offer.Calls.{
  Call, add, add_file, add_file_streamed, take_back, call, calls, serve_prepared, ok, add_offer,
  add_offer_file, add_offer_file_streamed, add_streamed, remove_offer, removing,
}

get_elem?-take :
    {A : Type 0} (xs : List A) (n i : ℕ) → i < n → get_elem? (take n xs) i ≡ get_elem? xs i
get_elem?-take [] zero i h = absurd (omega arith)
get_elem?-take [] (suc n) i h = refl
get_elem?-take (x ∷ xs) zero i h = absurd (omega arith)
get_elem?-take (x ∷ xs) (suc n) zero h = refl
get_elem?-take (x ∷ xs) (suc n) (suc i) h = get_elem?-take xs n i (omega arith)

module _ (lib : Library) where
  open lib use {Name, Signer, Wire, Prepared}

  -- The newest manifest is one of the board's offers.
  abbrev pub IsCurrent : OfferBoard lib → Type 0
  IsCurrent b =
      (now : ℕ) × (older : List Prepared) × (b.manifest
        ≡ build_manifest lib now (lib.append b.node_prefix (codes "offers")) b.node_prefix b.offers
          ∷ older)

  pub record IsBoard (b : OfferBoard lib) : Type 0 where
    pub current : IsCurrent b
    pub bounded : length b.manifest ≤ 6
    pub ascending : IsAscending b.offers

  rebuild-IsBoard :
      (now : ℕ) (b : OfferBoard lib) → IsAscending b.offers → IsBoard (rebuild_manifest lib now b)
  unfolding rebuild_manifest
  rebuild-IsBoard now b s = record {
    current = (now, take 5 b.manifest, refl);
    bounded = omega (arith, length-take 5 b.manifest);
    ascending = s;
  }

  -- What a call does: nothing, or a rebuild with other offers.
  data Rebuilds (b : OfferBoard lib) : OfferBoard lib → Type 0 where
    nothing : Rebuilds b b
    with_offers :
        (now : ℕ)
        → (offers : List (Text × OfferEntry lib)) → (IsAscending b.offers → IsAscending offers)
        → Rebuilds b (rebuild_manifest lib now (record b { offers = offers }))

  streamed-Rebuilds :
      (now : ℕ) (file_id display_name mime : Text) (file : lib.File) (size : ℕ)
      (prefix : Option Name) (b : OfferBoard lib)
      → Rebuilds b (add_streamed lib now file_id display_name mime file size prefix b).1
  unfolding add_streamed
  streamed-Rebuilds now file_id display_name mime file size none b = nothing
  streamed-Rebuilds now file_id display_name mime file size (some prefix) b =
      with_offers now _ (insert-IsAscending file_id _ b.offers)

  removing-Rebuilds :
      (now : ℕ) (file_id : Text) (o : Option (OfferEntry lib)) (b : OfferBoard lib)
      → Rebuilds b (removing lib now file_id o b).1
  unfolding removing
  removing-Rebuilds now file_id none b = nothing
  removing-Rebuilds now file_id (some e) b = with_offers now _ (remove-IsAscending file_id b.offers)

  call-Rebuilds : (c : Call lib) (b : OfferBoard lib) → Rebuilds b (call lib c b)
  unfolding call add_offer add_offer_file add_offer_file_streamed remove_offer serve_prepared ok
  call-Rebuilds (add now file_id display_name mime content) b = elim (Bool-cases (null file_id)) [
    | inl h ↦ rw (h, call, add_offer, add_offer_file, add_offer_file_streamed) nothing
    | inr h ↦
        rw (h, call, add_offer, add_offer_file, add_offer_file_streamed)
          (with_offers now _ (insert-IsAscending file_id _ b.offers))
  ]
  call-Rebuilds (add_file now file_id display_name mime file size) b =
      elim (Bool-cases (null file_id)) [
        | inl h ↦ rw (h, call, add_offer, add_offer_file, add_offer_file_streamed) nothing
        | inr h ↦
            rw (h, call, add_offer, add_offer_file, add_offer_file_streamed)
              (with_offers now _ (insert-IsAscending file_id _ b.offers))
      ]
  call-Rebuilds (add_file_streamed now file_id display_name mime file size) b =
      elim (Bool-cases (null file_id)) [
        | inl h ↦ rw (h, call, add_offer, add_offer_file, add_offer_file_streamed) nothing
        | inr h ↦
            rw (h, call, add_offer, add_offer_file, add_offer_file_streamed)
              (streamed-Rebuilds now file_id display_name mime file size
                (lib.parse internal_content_prefix) b)
      ]
  call-Rebuilds (take_back now file_id) b =
      removing-Rebuilds now file_id (lookup file_id b.offers) b

  rebuilt-IsBoard : {b c : OfferBoard lib} → Rebuilds b c → IsBoard b → IsBoard c
  rebuilt-IsBoard nothing i = i
  rebuilt-IsBoard {b} (with_offers now offers f) i =
      rebuild-IsBoard now (record b { offers = offers }) (f i.ascending)

  pub call-IsBoard : (c : Call lib) (b : OfferBoard lib) → IsBoard b → IsBoard (call lib c b)
  call-IsBoard c b = rebuilt-IsBoard (call-Rebuilds c b)

  -- After any calls the newest manifest lists exactly the offers that the board has now, at most six
  -- versions are kept, and the offers stand in the order of their ids, none twice.
  pub calls-IsBoard :
      (cs : List (Call lib)) (b : OfferBoard lib) → IsBoard b → IsBoard (calls lib cs b)
  calls-IsBoard [] b i = i
  calls-IsBoard (c ∷ cs) b i = calls-IsBoard cs (call lib c b) (call-IsBoard c b i)

  pub start-IsBoard :
      (now : ℕ) (signer : Signer) (cert_wire : List ℕ) (identity_prefix node_prefix : Name)
      → IsBoard (start lib now signer cert_wire identity_prefix node_prefix)
  unfolding start
  start-IsBoard now signer cert_wire identity_prefix node_prefix = record {
    current = (now, [], refl);
    bounded = omega arith;
    ascending = tt;
  }

  -- A version is in the ring, with so many newer ones before it at most.
  IsKept : Prepared → ℕ → OfferBoard lib → Type 0
  IsKept m n b = (i : ℕ) × (i ≤ n) × (get_elem? b.manifest i ≡ some m)

  rebuilt-IsKept :
      {b c : OfferBoard lib} (m : Prepared) (n : ℕ)
      → Rebuilds b c
      → suc n < 6
      → IsKept m n b
      → IsKept m (suc n) c
  unfolding IsKept rebuild_manifest
  rebuilt-IsKept m n nothing h (i, l, e) = (i, omega arith, e)
  rebuilt-IsKept {b} m n (with_offers now offers f) h (i, l, e) =
      (suc i, omega arith, get_elem?-take b.manifest 5 i (omega arith) ∙ e)

  rebuilt-signer : {b c : OfferBoard lib} → Rebuilds b c → c.signer ≡ b.signer
  unfolding rebuild_manifest
  rebuilt-signer nothing = refl
  rebuilt-signer (with_offers now offers f) = refl

  calls-IsKept :
      (m : Prepared) (cs : List (Call lib)) (n : ℕ) (b : OfferBoard lib)
      → n + length cs < 6
      → IsKept m n b
      → (i : ℕ) × (get_elem? (calls lib cs b).manifest i ≡ some m)
  unfolding IsKept
  calls-IsKept m [] n b h (i, l, e) = (i, e)
  calls-IsKept m (c ∷ cs) n b h k =
      calls-IsKept m cs (suc n) (call lib c b) (omega arith)
        (rebuilt-IsKept m n (call-Rebuilds c b) (omega arith) k)

  calls-signer : (cs : List (Call lib)) (b : OfferBoard lib) → (calls lib cs b).signer ≡ b.signer
  calls-signer [] b = refl
  calls-signer (c ∷ cs) b = calls-signer cs (call lib c b) ∙ rebuilt-signer (call-Rebuilds c b)

  first_answer-some :
      (ms : List Prepared) (i : ℕ) (m : Prepared) (name : Name) (signer : Option Signer)
      (wire : Wire)
      → get_elem? ms i ≡ some m
      → lib.answer_interest m name signer ≡ some wire
      → first_answer lib ms name signer ≢ none
  unfolding first_answer
  first_answer-some [] i m name signer wire e a = absurd (ground arith)
  first_answer-some (x ∷ ms) zero m name signer wire e a =
      elim (Option-cases (lib.answer_interest x name signer)) [
        | inl n ↦ absurd (ground (arith, n, e, a))
        | inr (w, q) ↦ rw (q, first_answer) (λ z. ground arith)
      ]
  first_answer-some (x ∷ ms) (suc i) m name signer wire e a =
      elim (Option-cases (lib.answer_interest x name signer)) [
        | inl n ↦ rw (n, first_answer) (first_answer-some ms i m name signer wire e a)
        | inr (w, q) ↦ rw (q, first_answer) (λ z. ground arith)
      ]

  -- Whatever Interest the newest manifest answers, the board still answers after up to five more
  -- calls, of any kind.
  pub calls_still_answer :
      (m : Prepared) (older : List Prepared) (name : Name) (wire : Wire) (cs : List (Call lib))
      (b : OfferBoard lib)
      → b.manifest ≡ m ∷ older
      → lib.answer_interest m name (some b.signer) ≡ some wire
      → length cs < 6
      → serve_manifest lib (calls lib cs b) name ≢ none
  unfolding serve_manifest IsKept
  calls_still_answer m older name wire cs b e a h =
      let (i, k) =
        calls-IsKept m cs 0 b (omega arith) (0, omega arith, ap (λ ms. get_elem? ms 0) e) in
      first_answer-some (calls lib cs b).manifest i m name (some (calls lib cs b).signer) wire k
        (rw (calls-signer cs b) a)
