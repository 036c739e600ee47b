-- ===== src/Thread/States.antt =====
-- The state machine of a thread in src/thread.rs.
use rtsched.Base.{◌≡◌, refl, Bool, true, false, ◌&&◌, List, [], ◌∷◌, arith}
use rtsched.Thread.{ThreadState, ready, running, waiting, suspended, is_blocked, can_transition_to}

-- Whether each state in turn may follow the one before.
abbrev pub follows : ThreadState → List ThreadState → Bool
follows s [] = true
follows s (t ∷ ts) = can_transition_to s t && follows t ts

abbrev pub final : ThreadState → List ThreadState → ThreadState
final s [] = s
final s (t ∷ ts) = final t ts

abbrev pub has_ready : List ThreadState → Bool
has_ready [] = false
has_ready (ready ∷ ts) = true
has_ready (running ∷ ts) = has_ready ts
has_ready (waiting ∷ ts) = has_ready ts
has_ready (suspended ∷ ts) = has_ready ts

-- However its states follow one another, a blocked thread that ends up running was made ready.
pub can_transition_to-has_ready :
    (s : ThreadState) (ts : List ThreadState)
    → follows s ts ≡ true
    → is_blocked s ≡ true
    → is_blocked (final s ts) ≡ false
    → has_ready ts ≡ true
can_transition_to-has_ready s [] f b r = absurd (ground arith)
can_transition_to-has_ready s (ready ∷ ts) f b r = refl
can_transition_to-has_ready s (running ∷ ts) f b r = absurd (ground arith)
can_transition_to-has_ready s (waiting ∷ ts) f b r =
    can_transition_to-has_ready waiting ts (ground arith) refl r
can_transition_to-has_ready s (suspended ∷ ts) f b r =
    can_transition_to-has_ready suspended ts (ground arith) refl r
