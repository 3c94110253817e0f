-- ===== src/Tests/OfferTests.antt =====
-- Runs of the offer board and of a content stream over a small library of objects.
use ndn_mobile.Prelude.{
  ℕ, ◌≡◌, ◌≢◌, ◌≤◌, refl, arith, true, false, null, if◌then◌else◌, none, some, List, [], ◌∷◌, ◌++◌,
  map,
}
use ndn_mobile.Text.{Text, codes}
use ndn_mobile.Text.Map.{lookup}
use ndn_mobile.Offer
use ndn_mobile.Offer.{Library, OfferBoard, serve_manifest}
use ndn_mobile.Offer.Calls.{Call, add, add_file_streamed, take_back, calls}
use ndn_mobile.Offer.Manifest.{IsBoard, start-IsBoard, calls-IsBoard, calls_still_answer}
use ndn_mobile.Offer.Offered.{listing, offered, calls-listing}
use ndn_mobile.Offer.Content
use ndn_mobile.Offer.Content.{Event, interest, round, subscription, plain, handle, rounds}
use ndn_mobile.Offer.Content.Order.{
  segments, granted, IsInOrder, run-IsInOrder, rounds_send_granted,
}

-- An object is its version, its last segment and its name; it answers every name but the empty one.
abbrev version : ℕ × ℕ × Text → ℕ
version (now, last, name) = now

abbrev last_of : ℕ × ℕ × Text → ℕ
last_of (now, last, name) = last

abbrev name_of : ℕ × ℕ × Text → Text
name_of (now, last, name) = name

abbrev pub lib : Library
lib = record {
  Name = Text;
  Signer = Unit {0};
  File = ℕ;
  Wire = ℕ × Text;
  Prepared = ℕ × ℕ × Text;
  parse = λ t. some t;
  append = λ n t. n ++ codes "/" ++ t;
  append_segment = λ n seg. seg ∷ n;
  to_string = λ n. n;
  build = λ now n content chunk. (now, 0, n);
  build_from_file = λ now n file size chunk. (now, 2, n);
  answer_interest = λ p n signer. if null n then none else some (version p, n);
  last_seg = last_of;
  versioned_name = name_of;
}

abbrev board : OfferBoard lib
board = Offer.start lib 7 tt [] (codes "/ann") (codes "/ndn/node/x")

abbrev some_calls : List (Call lib)
some_calls =
    add 8 (codes "f") (codes "Notes") (codes "text/plain") (1 ∷ 2 ∷ 3 ∷ [])
    ∷ add_file_streamed 9 (codes "g") (codes "Film") (codes "video/mp4") 5 20000
    ∷ take_back 10 (codes "f")
    ∷ []

calls-IsBoard_example : IsBoard lib (calls lib some_calls board)
calls-IsBoard_example =
    calls-IsBoard lib some_calls board
      (start-IsBoard lib 7 tt [] (codes "/ann") (codes "/ndn/node/x"))

calls_still_answer_example :
    serve_manifest lib (calls lib some_calls board) (codes "/ndn/node/x/offers") ≢ none
unfolding Offer.start Offer.build_manifest
calls_still_answer_example =
    calls_still_answer lib (7, 0, codes "/ndn/node/x/offers") [] (codes "/ndn/node/x/offers")
      (7, codes "/ndn/node/x/offers") some_calls board refl refl (omega arith)

calls-listing_example :
    listing lib (lookup (codes "g") (calls lib some_calls board).offers)
    ≡ offered lib (codes "g") (listing lib (lookup (codes "g") board.offers)) some_calls
calls-listing_example =
    calls-listing lib (codes "/localhost/ripple/content") refl (codes "g") some_calls board
      (start-IsBoard lib 7 tt [] (codes "/ann") (codes "/ndn/node/x"))

abbrev film : ℕ × ℕ × Text
film = (9, 2, codes "c")

abbrev events : List (Event lib)
events =
    interest (subscription 0)
    ∷ round true
    ∷ round true
    ∷ interest (subscription 9)
    ∷ interest (plain (codes "c"))
    ∷ round true
    ∷ round false
    ∷ []

run-IsInOrder_example :
    IsInOrder lib film (granted lib 0 events) (Content.run lib events (Content.start lib film))
run-IsInOrder_example = run-IsInOrder lib film events

answers : (i : ℕ) → i ≤ 2 → Content.segment lib film i ≢ none
unfolding Content.segment
answers i h = λ e. ground arith

rounds_send_granted_example :
    map some (rounds lib 3 (handle lib (subscription 4) (Content.start lib film)).0).sent
    ≡ segments lib film 3
rounds_send_granted_example = rounds_send_granted lib film 4 3 answers (omega arith) (omega arith)
