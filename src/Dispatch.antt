-- ===== src/Dispatch.antt =====
-- Expiry dispatch and the tick handler: `KTimerQueue::dispatch_expired` of src/ktimer.rs and
-- `handle_sched_tick` of src/sched.rs.
use rtsched.Base.{
  ℕ, zero, suc, ◌-◌, Ptr, true, false, Option, none, some, ◌&&◌, if◌then◌else◌, saturating_add32,
}
use rtsched.KTimer.{set_expire_after, is_expired_at, reload_for_entity}
use rtsched.KTimer.Queue
use rtsched.KTimer.Queue.{KTimerQueue}
use rtsched.Kernel.{Kernel, Result, done, stopped, ◌>>=◌, out_of_fuel}
use rtsched.Kernel.Access.{
  ktimer, now_ticks, set_queue, set_ktimer, is_cfs_ktimer, is_wait_ktimer, request_context_switch,
}
use rtsched.Timers.{
  wake_wait_thread, update_wait_ktimer_deadline, thread_of, check_deadline,
  is_real_rt_deadline_miss, renew_rt, renew_cfs, enqueue_active, enqueue_inactive,
}

-- The three arms of the loop body, for a timer that has been removed.
unfoldable pub dispatch_wait : Kernel → Ptr → ℕ → Result Kernel
dispatch_wait k e elapsed = do
  k' ← wake_wait_thread k elapsed
  done (enqueue_inactive (update_wait_ktimer_deadline k' e) e)

unfoldable pub dispatch_cfs : Kernel → Ptr → ℕ → Kernel
dispatch_cfs k e elapsed =
    let t = ktimer k e in
    let left = t.timing.period_ticks - elapsed in
    if t.active
    then enqueue_inactive (set_ktimer k e (set_expire_after (now_ticks k) left t)) e
    else enqueue_active (renew_cfs k e) e

unfoldable pub dispatch_rt : Kernel → Ptr → Result Kernel
dispatch_rt k e = do
  t ← thread_of k e
  _ ← check_deadline k e ((ktimer k e).active && is_real_rt_deadline_miss k e t) t
  done (enqueue_active (renew_rt k e t) e)

unfoldable pub dispatch_one : Kernel → Ptr → ℕ → Result Kernel
dispatch_one k e elapsed =
    let r = set_queue k (Queue.remove k.ktimer_queue e) in
    if is_wait_ktimer k e
    then dispatch_wait r e elapsed
    else if is_cfs_ktimer k e
    then done (dispatch_cfs r e elapsed)
    else dispatch_rt r e

-- The loop, on fuel; it returns the first active timer.
unfoldable pub dispatch_expired : ℕ → Kernel → ℕ → Result (Kernel × Option Ptr)
dispatch_expired zero k elapsed = stopped out_of_fuel
dispatch_expired (suc fuel) k elapsed = elim (Queue.first k.ktimer_queue) [
  | none ↦ done (k, k.ktimer_queue.first_active)
  | some e ↦ elim (is_expired_at (now_ticks k) (ktimer k e)) [
    | false ↦ done (k, k.ktimer_queue.first_active)
    | true ↦ dispatch_one k e elapsed >>= λ k'. dispatch_expired fuel k' elapsed
  ]
]

-- `next_ktimer_reload`
unfoldable pub next_ktimer_reload : Kernel → Option ℕ
next_ktimer_reload k = elim (Queue.first k.ktimer_queue) [
  | none ↦ none
  | some e ↦ some (reload_for_entity (is_cfs_ktimer k e) (now_ticks k) (ktimer k e))
]

abbrev pub or_else : Option ℕ → Option ℕ → Option ℕ
or_else none b = b
or_else (some a) b = some a

-- The interval that the programmed reload value stands for.
unfoldable pub elapsed_ticks_since_last_interrupt : Kernel → ℕ
elapsed_ticks_since_last_interrupt k = elim (or_else k.timer_reload (next_ktimer_reload k)) [
  | none ↦ 0
  | some reload ↦ saturating_add32 reload 1
]

abbrev pub advance_ktimers : Kernel → ℕ → Kernel
advance_ktimers k elapsed = set_queue k (Queue.advance_time k.ktimer_queue elapsed)

unfoldable pub handle_sched_tick : ℕ → Kernel → Result Kernel
handle_sched_tick fuel k =
    if k.scheduler_started
    then (do
      let elapsed = elapsed_ticks_since_last_interrupt k
      (k', next) ← dispatch_expired fuel (advance_ktimers k elapsed) elapsed
      done (request_context_switch (record k' { next_ktimer = next })))
    else done k

-- `program_next_scheduler_timer`; a Cortex-M timer takes the value and restarts from it.
unfoldable pub program_next_scheduler_timer : Kernel → Kernel × Option ℕ
program_next_scheduler_timer k = elim (next_ktimer_reload k) [
  | none ↦ (k, none)
  | some reload ↦ (record k { timer_reload = some reload; timer_current = some 0 }, some reload)
]
