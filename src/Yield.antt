-- ===== src/Yield.antt =====
-- `yieldyi` and `msleepyi` of src/thread.rs.
use rtsched.Base.{ℕ, Ptr, Bool, true, false, Option, none, some, if◌then◌else◌, saturating_mul32}
use rtsched.Thread.{ThreadKind, idle, cfs, rt}
use rtsched.Kernel.{Kernel, Result, done, stopped, ◌>>=◌, null_pointer}
use rtsched.Kernel.Access.{
  kind, now_ticks, set_wait_entity, record_yield, request_context_switch, ticks_per_ms,
}
use rtsched.WaitQueue.{set_wake_after}
use rtsched.Blocking.{
  dequeue_runq_to_waitq, dequeue_ktimerq_to_waitq, elapsed_ticks_since_current_reload, yield_ktimer,
}

-- The timer that schedules a CFS or RT thread; an RT thread may have none.
abbrev pub scheduler_ktimer : Kernel → Ptr → Option Ptr
scheduler_ktimer k p = elim (kind k p) [
  | cfs ↦ some k.cfs_ktimer
  | rt ↦ (k.threads p).ktimer_entity
  | idle ↦ none
]

-- `yield_ktimer` on a pointer that may be null.
unfoldable pub yield_nullable : Kernel → Option Ptr → ℕ → Bool → Result (Kernel × Option Ptr)
yield_nullable k none elapsed reset_runtime = done (k, none)
yield_nullable k (some e) elapsed reset_runtime = yield_ktimer k e elapsed reset_runtime

abbrev pub is_idle_kind : ThreadKind → Bool
is_idle_kind idle = true
is_idle_kind cfs = false
is_idle_kind rt = false

unfoldable pub yield_thread : Kernel → Ptr → Result Kernel
yield_thread k p = if is_idle_kind (kind k p) then done k else do
  let elapsed = elapsed_ticks_since_current_reload k
  (k', next) ← yield_nullable k (scheduler_ktimer k p) elapsed true
  let r = record_yield (record k' { next_ktimer = next }) k'.current_thread_ctx elapsed
  done (request_context_switch r)

unfoldable pub yieldyi : Kernel → Result Kernel
yieldyi k = elim k.current_thread_ctx [ none ↦ stopped null_pointer | some p ↦ yield_thread k p ]

unfoldable pub sleep_thread : Kernel → Ptr → ℕ → Result Kernel
sleep_thread k p msec = if is_idle_kind (kind k p) then done k else do
  let elapsed = elapsed_ticks_since_current_reload k
  (k', _) ← yield_nullable k (scheduler_ktimer k p) elapsed false
  let ticks = saturating_mul32 msec (ticks_per_ms k')
  let slept = set_wake_after (now_ticks k') ticks (k'.threads p).wait_entity
  let w = set_wait_entity k' p (record slept { waitevt = none })
  (r, _) ←
      if w.current_thread_is_cfs then dequeue_runq_to_waitq w p else dequeue_ktimerq_to_waitq w p
  done (request_context_switch r)

unfoldable pub msleepyi : Kernel → ℕ → Result Kernel
msleepyi k msec = elim k.current_thread_ctx [
  | none ↦ stopped null_pointer
  | some p ↦ sleep_thread k p msec
]
