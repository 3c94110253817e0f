-- ===== src/Mobile/Supervisor.antt =====
-- The task that keeps a peer's face connected, spawned by `build_peer_face`. Times are in milliseconds.
use ndn_mobile.Prelude.{
  ℕ, ◌*◌, ◌≤◌, ◌≡◌, min, refl, arith, Bool, true, if◌then◌else◌, List, [], ◌∷◌, length, Bool-cases,
  inl, inr, ap, ◌∙◌,
}

abbrev pub first_backoff : ℕ
first_backoff = 250

abbrev pub max_backoff : ℕ
max_backoff = 10000

abbrev pub probe : ℕ
probe = 2000

-- Where the task is: at the head of the dialing loop with the backoff that it has, at a dial, asleep
-- for the backoff, asleep for the probe time, or returned.
pub data Phase : Type 0 where
  checking : (backoff : ℕ) → Phase
  dialing : (backoff : ℕ) → Phase
  waiting : (backoff : ℕ) → Phase
  watching : Phase
  stopped : Phase

-- What holds when the task goes on: whether the face table has the face, the token is cancelled, a
-- dial has connected.
pub record Moment : Type 0 where
  pub present : Bool
  pub cancelled : Bool
  pub connected : Bool

unfoldable pub check : Moment → ℕ → Phase
check m backoff = if m.present then watching else if m.cancelled then stopped else dialing backoff

unfoldable pub step : Phase → Moment → Phase
step (checking backoff) m = check m backoff
step (dialing backoff) m = if m.connected then watching else waiting backoff
step (waiting backoff) m = if m.cancelled then stopped else checking (min (backoff * 2) max_backoff)
step watching m =
    if m.cancelled then stopped else if m.present then watching else checking first_backoff
step stopped m = stopped

-- How long the task sleeps in a phase.
unfoldable pub sleep : Phase → ℕ
sleep (waiting backoff) = backoff
sleep watching = probe
sleep _ = 0

abbrev pub run : List Moment → Phase → Phase
run [] phase = phase
run (m ∷ ms) phase = run ms (step phase m)

-- The task as it is spawned.
abbrev pub start : Phase
start = checking first_backoff

abbrev pub AllCancelled : List Moment → Type 0
AllCancelled [] = Unit
AllCancelled (m ∷ ms) = (m.cancelled ≡ true) × AllCancelled ms

stays_stopped : (ms : List Moment) → run ms stopped ≡ stopped
unfolding step
stays_stopped [] = refl
stays_stopped (m ∷ ms) = stays_stopped ms

-- Asleep, the task ends at the next moment.
abbrev IsAsleep : Phase → Type 0
IsAsleep (waiting backoff) = Unit
IsAsleep watching = Unit
IsAsleep stopped = Unit
IsAsleep _ = ⊥

ends : (phase : Phase) (m : Moment) → IsAsleep phase → m.cancelled ≡ true → step phase m ≡ stopped
unfolding step
ends (checking b) m a h = absurd a
ends (dialing b) m a h = absurd a
ends (waiting b) m a h = rw h refl
ends watching m a h = rw h refl
ends stopped m a h = refl

step-IsAsleep : (phase : Phase) (m : Moment) → m.cancelled ≡ true → IsAsleep (step phase m)
unfolding step check
step-IsAsleep (checking b) m h = elim (Bool-cases m.present) [
  | inl k ↦ rw k tt
  | inr k ↦ rw (k, h) tt
]
step-IsAsleep (dialing b) m h = elim (Bool-cases m.connected) [ inl k ↦ rw k tt | inr k ↦ rw k tt ]
step-IsAsleep (waiting b) m h = rw h tt
step-IsAsleep watching m h = rw h tt
step-IsAsleep stopped m h = tt

-- The backoff that a phase carries.
abbrev IsCapped : Phase → Type 0
IsCapped (checking backoff) = backoff ≤ max_backoff
IsCapped (dialing backoff) = backoff ≤ max_backoff
IsCapped (waiting backoff) = backoff ≤ max_backoff
IsCapped _ = Unit

step-IsCapped : (phase : Phase) (m : Moment) → IsCapped phase → IsCapped (step phase m)
unfolding step check
step-IsCapped (checking b) m c = elim (Bool-cases m.present) [
  | inl k ↦ rw k tt
  | inr k ↦ elim (Bool-cases m.cancelled) [ inl h ↦ rw (k, h) tt | inr h ↦ rw (k, h) c ]
]
step-IsCapped (dialing b) m c = elim (Bool-cases m.connected) [ inl k ↦ rw k tt | inr k ↦ rw k c ]
step-IsCapped (waiting b) m c = elim (Bool-cases m.cancelled) [
  | inl h ↦ rw h tt
  | inr h ↦ rw h (omega arith)
]
step-IsCapped watching m c = elim (Bool-cases m.cancelled) [
  | inl h ↦ rw h tt
  | inr h ↦ elim (Bool-cases m.present) [ inl k ↦ rw (h, k) tt | inr k ↦ rw (h, k) (omega arith) ]
]
step-IsCapped stopped m c = tt

run-IsCapped : (ms : List Moment) (phase : Phase) → IsCapped phase → IsCapped (run ms phase)
run-IsCapped [] phase c = c
run-IsCapped (m ∷ ms) phase c = run-IsCapped ms (step phase m) (step-IsCapped phase m c)

sleep_bound : (phase : Phase) → IsCapped phase → sleep phase ≤ max_backoff
unfolding sleep
sleep_bound (checking b) c = omega arith
sleep_bound (dialing b) c = omega arith
sleep_bound (waiting b) c = c
sleep_bound watching c = omega arith
sleep_bound stopped c = omega arith

-- The task never sleeps for more than ten seconds, and once its token is cancelled it has returned
-- after two turns at most, wherever it was and whatever the dials and the face table do.
pub run-stopped :
    (before ms : List Moment)
    → AllCancelled ms
    → 2 ≤ length ms
    → (sleep (run before start) ≤ 10000) × (run ms (run before start) ≡ stopped)
run-stopped before [] c l = absurd (omega (arith, l))
run-stopped before (m ∷ []) c l = absurd (omega (arith, l))
run-stopped before (m ∷ n ∷ ms) c l = (
  sleep_bound (run before start) (run-IsCapped before start (omega arith)),
  ap (run ms) (ends _ n (step-IsAsleep (run before start) m c.0) c.1.0) ∙ stays_stopped ms,
)
