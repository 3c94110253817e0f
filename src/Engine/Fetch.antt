-- ===== src/Engine/Fetch.antt =====
-- The consumer calls of the engine object, over one connection that is shared between them.
use ndn_mobile.Prelude.{ℕ, List, [], ◌∷◌, ◌⊎◌, inl, inr}
use ndn_mobile.Text.{Text}
use ndn_mobile.Types.{NdnError, AppError, NdnData}
use ndn_mobile.Identity.Trust.{build_validator}
use ndn_mobile.Client.{received, to_ffi}
use ndn_mobile.Engine.Calls
use ndn_mobile.Engine.Calls.{Running}
use ndn_mobile.Engine.Object.{Host, NdnEngine, Call, parsed}

module _ (h : Host) where
  open h use {mobile, texts, p, offers, fetching}
  open p use {lib}
  open fetching use {Consumer}
  open lib use {Name, World}

  -- A fetch over a consumer gives its result, and reports its progress.
  abbrev pub Fetch : Type 0 → Type 0
  Fetch A = Consumer → World → ((AppError ⊎ A) × List (ℕ × ℕ)) × World

  -- Each report is a pair of the segments received and in all.
  unfoldable pub store_progress : List (ℕ × ℕ) → NdnEngine h → NdnEngine h
  store_progress [] e = e
  store_progress ((got, total) ∷ reports) e =
      store_progress reports (record e { fetch_received = got; fetch_total = total })

  -- `on_start` is what the call does to the engine before it fetches.
  unfoldable pub over :
      {A : Type 0}
      → (NdnEngine h → NdnEngine h)
      → Fetch A
      → (NdnError ⊎ ℕ) × Running mobile texts
      → NdnEngine h
      → (NdnError ⊎ (AppError ⊎ A)) × NdnEngine h
  over on_start run (inl error, r) e = (inl error, record e { running = r })
  over on_start run (inr face, r) e =
      let e = on_start (record e { running = r }) in
      let ((result, reports), w) = run (h.consumer_over face) e.core.world in
      (inr result, store_progress reports (record e { core = record e.core { world = w } }))

  unfoldable pub with_consumer :
      {A : Type 0}
      → (NdnEngine h → NdnEngine h)
      → Fetch A
      → NdnEngine h
      → (NdnError ⊎ (AppError ⊎ A)) × NdnEngine h
  with_consumer on_start run e = over on_start run (Calls.with_consumer mobile texts e.running) e

  unfoldable pub finished :
      {A : Type 0} → Text → (NdnError ⊎ (AppError ⊎ A)) × NdnEngine h → (NdnError ⊎ A) × NdnEngine h
  finished name (inl error, e) = (inl error, e)
  finished name (inr result, e) = (to_ffi p offers fetching name result, e)

  unfoldable pub at_once : NdnEngine h → NdnEngine h
  at_once e = e

  -- A fetch that does not report its progress.
  unfoldable pub quiet :
      {A B : Type 0}
      → (AppError ⊎ A → AppError ⊎ B)
      → (Consumer → World → ((AppError ⊎ A) × Consumer) × World)
      → Fetch B
  quiet view run consumer w = let ((r, _), w') = run consumer w in ((view r, []), w')

  unfoldable pub as_is : {A : Type 0} → AppError ⊎ A → AppError ⊎ A
  as_is r = r

  unfoldable pub fetch : Text → Call h NdnData
  fetch name = parsed h name (λ n e.
      finished name
        (with_consumer at_once (quiet (received p offers fetching) (fetching.fetch n)) e))

  unfoldable pub get : Text → Call h (List ℕ)
  get name =
      parsed h name (λ n e. finished name (with_consumer at_once (quiet as_is (fetching.get n)) e))

  unfoldable pub fetch_object : Text → Call h (List ℕ)
  fetch_object name =
      parsed h name
        (λ n e. finished name (with_consumer at_once (quiet as_is (fetching.fetch_object n)) e))

  unfoldable pub silent : {A : Type 0} → (Consumer → World → (AppError ⊎ A) × World) → Fetch A
  silent run consumer w = let (r, w') = run consumer w in ((r, []), w')

  unfoldable pub fetch_object_verified : Text → Call h (List ℕ)
  fetch_object_verified name = parsed h name (λ n e.
      let validator = build_validator p e.core in
      finished name (with_consumer at_once (silent (fetching.fetch_verified n validator)) e))

  -- Its reports go nowhere.
  unfoldable pub unheard : {A : Type 0} → Fetch A → Fetch A
  unheard run consumer w = let ((r, _), w') = run consumer w in ((r, []), w')

  unfoldable pub fetch_object_verified_hinted : Text → Text → Call h (List ℕ)
  fetch_object_verified_hinted name hint = parsed h name (λ n. parsed h hint (λ hint_name e.
      let validator = build_validator p e.core in
      finished name
        (with_consumer at_once (unheard (fetching.fetch_hinted n validator hint_name)) e)))

  unfoldable pub reset_progress : NdnEngine h → NdnEngine h
  reset_progress e = record e { fetch_received = 0; fetch_total = 0 }

  unfoldable pub fetch_object_to_fd : Text → Text → ℕ → Call h ℕ
  fetch_object_to_fd name hint fd = parsed h name (λ n. parsed h hint (λ hint_name e.
      let validator = build_validator p e.core in
      finished name
        (with_consumer reset_progress (fetching.fetch_to_file n validator hint_name fd) e)))

  unfoldable pub fetch_progress_received : NdnEngine h → ℕ
  fetch_progress_received e = e.fetch_received

  unfoldable pub fetch_progress_total : NdnEngine h → ℕ
  fetch_progress_total e = e.fetch_total
