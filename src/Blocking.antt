-- ===== src/Blocking.antt =====
-- How threads leave the processor and come back: the moves between the ready queues and the wait
-- queue of src/ktimer.rs and src/runq.rs, and `yield_ktimer`.
use rtsched.Base.{
  ℕ, ◌-◌, Ptr, Bool, true, false, Option, none, some, if◌then◌else◌, same_ptr, saturating_add32,
  saturating_add64,
}
use rtsched.Tree
use rtsched.Thread.{ThreadState, ready, running, waiting, suspended, is_rt}
use rtsched.KTimer.{set_expire_after}
use rtsched.KTimer.Queue
use rtsched.Kernel.{Kernel, Result, done, ◌>>=◌, Except, ok, err, WaitQueueError, not_found}
use rtsched.Kernel.Access.{
  state, kind, ktimer, now_ticks, set_queue, set_ktimer, set_runtime, set_thread_state,
  is_cfs_ktimer, record_wakeup,
}
use rtsched.WaitQueue.{insert_wait_thread, remove_wait_thread}
use rtsched.RunQueue.{sched}
use rtsched.Timers.{
  refresh_next_ktimer, program_wait_ktimer, record_rt_budget_overrun, thread_of, enqueue_active,
  enqueue_inactive,
}

abbrev pub is_ready : ThreadState → Bool
is_ready ready = true
is_ready running = false
is_ready waiting = false
is_ready suspended = false

-- A Running thread is not in the run queue.
unfoldable pub dequeue_runq_to_waitq :
    Kernel → Ptr → Result (Kernel × Except WaitQueueError (Unit {0}))
dequeue_runq_to_waitq k p = do
  let k' = if is_ready (state k p) then record k { run_queue = Tree.remove p k.run_queue } else k
  w ← insert_wait_thread k' p
  let sum = w.priority_sum - (sched w.threads p).priority
  r ← program_wait_ktimer (record w { priority_sum = sum })
  done (r, ok tt)

-- Blocking takes the timer out of the queue for good: it is no longer eligible.
unfoldable pub remove_ktimer : Kernel → Ptr → Result Kernel
remove_ktimer k e =
    let k' = set_queue k (Queue.dequeue k.ktimer_queue e) in
    if same_ptr k.next_ktimer (some e) then refresh_next_ktimer k' else done k'

unfoldable pub reinsert_ktimer : Kernel → Ptr → Result Kernel
reinsert_ktimer k e = refresh_next_ktimer (enqueue_active k e)

-- The timer of an RT thread: the two refusals of the wait-queue moves.
abbrev pub rt_ktimer : Kernel → Ptr → Except WaitQueueError Ptr
rt_ktimer k p =
    if is_rt (kind k p)
    then elim (k.threads p).ktimer_entity [ none ↦ err not_found | some e ↦ ok e ]
    else err not_found

unfoldable pub dequeue_ktimerq_to_waitq :
    Kernel → Ptr → Result (Kernel × Except WaitQueueError (Unit {0}))
dequeue_ktimerq_to_waitq k p = elim (rt_ktimer k p) [
  | err x ↦ done (k, err x)
  | ok e ↦ do
    k' ← remove_ktimer k e
    w ← insert_wait_thread k' p
    r ← program_wait_ktimer w
    done (r, ok tt)
]

unfoldable pub enqueue_ktimerq_from_waitq :
    Kernel → Ptr → Result (Kernel × Except WaitQueueError (Unit {0}))
enqueue_ktimerq_from_waitq k p = elim (rt_ktimer k p) [
  | err x ↦ done (k, err x)
  | ok e ↦ do
    k' ← remove_wait_thread k p
    r ← reinsert_ktimer (record_wakeup (set_thread_state k' p ready) (some p)) e
    r' ← program_wait_ktimer r
    done (r', ok tt)
]

unfoldable pub elapsed_ticks_since_current_reload : Kernel → ℕ
elapsed_ticks_since_current_reload k = elim k.timer_reload [
  | none ↦ 0
  | some reload ↦ elim k.timer_current [ none ↦ 0 | some current ↦ reload - current ]
]

-- The expiry that `yield_ktimer` gives the CFS timer or an RT timer of thread `t`.
abbrev pub yield_cfs : Kernel → Ptr → ℕ → Kernel
yield_cfs k e elapsed = set_ktimer k e (
    set_expire_after (saturating_add64 (now_ticks k) elapsed)
      ((ktimer k e).timing.period_ticks - elapsed) (ktimer k e))

unfoldable pub yield_rt : Kernel → Ptr → Ptr → ℕ → Bool → Kernel
yield_rt k e t elapsed reset_runtime =
    let run = saturating_add32 (k.threads t).runtime elapsed in
    let k' = record_rt_budget_overrun (set_runtime k t run) e t in
    let k'' = set_ktimer k' e (
      set_expire_after (saturating_add64 (now_ticks k') elapsed)
        ((ktimer k' e).timing.period_ticks - run) (ktimer k' e)) in
    if reset_runtime then set_runtime k'' t 0 else k''

-- The end of `yield_ktimer`: time advances and the timer is parked as inactive.
abbrev pub park : Kernel → Ptr → ℕ → Kernel
park k e elapsed = enqueue_inactive (set_queue k (Queue.advance_time k.ktimer_queue elapsed)) e

unfoldable pub yield_ktimer : Kernel → Ptr → ℕ → Bool → Result (Kernel × Option Ptr)
yield_ktimer k e elapsed reset_runtime =
    let r = set_queue k (Queue.remove k.ktimer_queue e) in
    (if is_cfs_ktimer k e
      then done (yield_cfs r e elapsed)
      else thread_of r e >>= λ t. done (yield_rt r e t elapsed reset_runtime))
    >>= λ k'. let k'' = park k' e elapsed in done (k'', k''.ktimer_queue.first_active)
