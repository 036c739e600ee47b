-- ===== src/Kernel.antt =====
-- The globals of the scheduler: src/sched.rs, src/runq.rs, src/waitq.rs, src/ktimer.rs,
-- src/thread.rs, src/clock.rs and the trace counters of src/diagnostics/trace.rs, in one record.
pub mod Access
use rtsched.Base.{ℕ, Ptr, Bool, true, false, Option, List, ◌≡◌, refl, ◌⊎◌, inl, inr, if◌then◌else◌}
use rtsched.Thread.{Thread, ThreadSpawnError}
use rtsched.KTimer.{RtKTimer}
use rtsched.KTimer.Queue.{KTimerQueue}
use rtsched.Trace.{Trace}

pub record Kernel : Type 0 where
  -- The structs that the board owns, by address.
  pub threads : Ptr → Thread
  pub rt_ktimers : Ptr → RtKTimer
  -- KTIMER_QUEUE, NEXT_KTIMER, and the addresses of CFS_KTIMER and WAIT_KTIMER.
  pub ktimer_queue : KTimerQueue
  pub next_ktimer : Option Ptr
  pub cfs_ktimer : Ptr
  pub wait_ktimer : Ptr
  -- CFS_RUN_QUEUE
  pub run_queue : List Ptr
  pub priority_sum : ℕ
  -- WAIT_QUEUE: the timeout tree and the suspended list.
  pub wait_queue : List Ptr
  pub suspended : List Ptr
  -- CURRENT_THREAD_CTX, CURRENT_THREAD_IS_CFS, IDLE_THREAD_CTX, SCHEDULER_STARTED
  pub current_thread_ctx : Option Ptr
  pub current_thread_is_cfs : Bool
  pub idle_thread_ctx : Option Ptr
  pub scheduler_started : Bool
  -- What the platform's timer registers read, and whether a context switch is pending.
  pub timer_reload : Option ℕ
  pub timer_current : Option ℕ
  pub switch_requested : Bool
  -- SYS_CLK_FREQ, NEXT_THREAD_ID and the trace state.
  pub sys_clk_freq : ℕ
  pub next_thread_id : ℕ
  pub trace : Trace

-- Why a call does not return: a panic of the source (with the globals that a deadline miss leaves), a
-- dereferenced null pointer, or a loop that has used the rounds it was given.
pub data Stop : Type 0 where
  deadline_miss : Kernel → Ptr → Stop
  idle_thread_has_no_entity thread_is_not_idle null_pointer out_of_fuel equal_keys : Stop
  invalid_waiter : Stop
  spawn_error : ThreadSpawnError → Stop

pub data Result {ℓ} (A : Type ℓ) : Type ℓ where
  done : A → Result A
  stopped : Stop → Result A

infixl 5 ◌>>=◌
abbrev pub ◌>>=◌ {ℓ κ} : {A : Type ℓ} {B : Type κ} → Result A → (A → Result B) → Result B
done a >>= f = f a
stopped s >>= f = stopped s

-- `Result<T, E>` of the source.
pub data Except {ℓ κ} (E : Type ℓ) (A : Type κ) : Type (ℓ ⊔ κ) where
  ok : A → Except E A
  err : E → Except E A

pub data WaitQueueError : Type 0 where
  not_found : WaitQueueError

-- A postcondition of a call that returns.
abbrev pub Ensures {ℓ κ} : {A : Type ℓ} → (A → Type κ) → Result A → Type κ
Ensures P (done a) = P a
Ensures P (stopped s) = Unit

-- The call returns, with a postcondition.
abbrev pub Returns {ℓ} : {A : Type ℓ} → (A → Type 0) → Result A → Type 0
Returns P (done a) = P a
Returns P (stopped s) = ⊥

-- The same, where the call returns if the test holds.
abbrev pub ReturnsIf {ℓ} : {A : Type ℓ} → Bool → (A → Type 0) → Result A → Type 0
ReturnsIf true P r = Returns P r
ReturnsIf false P r = Ensures P r

pub ReturnsIf-of {ℓ} :
    {A : Type ℓ} (b : Bool) (P : A → Type 0) (r : Result A)
    → Ensures P r
    → (b ≡ true → Returns P r)
    → ReturnsIf b P r
ReturnsIf-of true P r h f = f refl
ReturnsIf-of false P r h f = h

pub Returns->>= {ℓ κ} :
    {A : Type ℓ} {B : Type κ} (P : A → Type 0) (Q : B → Type 0) (r : Result A) (f : A → Result B)
    → Returns P r
    → ((a : A) → P a → Returns Q (f a))
    → Returns Q (r >>= f)
Returns->>= P Q (done a) f h next = next a h
Returns->>= P Q (stopped s) f h next = elim h [ ]

pub Returns-Ensures {ℓ} :
    {A : Type ℓ} (P Q : A → Type 0) (r : Result A)
    → Returns P r
    → Ensures Q r
    → Returns (λ a. P a × Q a) r
Returns-Ensures P Q (done a) h g = (h, g)
Returns-Ensures P Q (stopped s) h g = elim h [ ]

pub Returns-imp {ℓ} :
    {A : Type ℓ} {P Q : A → Type 0}
    → ((a : A) → P a → Q a)
    → (r : Result A) → Returns P r
    → Returns Q r
Returns-imp f (done a) h = f a h
Returns-imp f (stopped s) h = elim h [ ]

pub Ensures->>= {ℓ κ μ} :
    {A : Type ℓ} {B : Type κ} (P : A → Type μ) (Q : B → Type μ) (r : Result A) (f : A → Result B)
    → Ensures P r
    → ((a : A) → P a → Ensures Q (f a))
    → Ensures Q (r >>= f)
Ensures->>= P Q (done a) f h next = next a h
Ensures->>= P Q (stopped s) f h next = tt

pub Ensures-of {ℓ κ} : {A : Type ℓ} (P : A → Type κ) (r : Result A) → ((a : A) → P a) → Ensures P r
Ensures-of P (done a) h = h a
Ensures-of P (stopped s) h = tt

pub Ensures-imp {ℓ κ μ} :
    {A : Type ℓ} {P : A → Type κ} {Q : A → Type μ}
    → ((a : A) → P a → Q a)
    → (r : Result A) → Ensures P r
    → Ensures Q r
Ensures-imp f (done a) h = f a h
Ensures-imp f (stopped s) h = tt

-- The same where nothing is needed of the first part.
pub Ensures-skip {ℓ κ μ} :
    {A : Type ℓ} {B : Type κ} (Q : B → Type μ) (r : Result A) (f : A → Result B)
    → ((a : A) → Ensures Q (f a))
    → Ensures Q (r >>= f)
Ensures-skip Q (done a) f next = next a
Ensures-skip Q (stopped s) f next = tt

pub Ensures-if {ℓ κ} :
    {A : Type ℓ} (Q : A → Type κ) (b : Bool) (x y : Result A)
    → (b ≡ true → Ensures Q x)
    → (b ≡ false → Ensures Q y)
    → Ensures Q (if b then x else y)
Ensures-if Q true x y h g = h refl
Ensures-if Q false x y h g = g refl

pub Except-cases {ℓ κ} :
    {E : Type ℓ} {A : Type κ} (r : Except E A) → ((a : A) × (r ≡ ok a)) ⊎ ((x : E) × (r ≡ err x))
Except-cases (ok a) = inl (a, refl)
Except-cases (err x) = inr (x, refl)
