-- ===== src/Timers.antt =====
-- The functions of src/ktimer.rs that act on the whole scheduler: expiry dispatch, the wait timer,
-- the selected timer and the moves between the timer queue and the wait queue.
pub mod Drain
pub mod Links
pub mod Linked
pub mod Missed
use rtsched.Base.{
  ℕ, zero, suc, ◌+◌, ◌-◌, Ptr, Bool, none, some, ◌==◌, ltb, if◌then◌else◌, length, saturating_add32,
}
use rtsched.Tree
use rtsched.Thread.{idle, cfs, rt, ready}
use rtsched.KTimer.{expire_never, set_expire_at, set_expire_after, is_expired_at}
use rtsched.KTimer.Queue
use rtsched.KTimer.Queue.{KTimerQueue}
use rtsched.Kernel.{Kernel, Result, done, stopped, ◌>>=◌, deadline_miss, null_pointer, out_of_fuel}
use rtsched.Kernel.Access.{
  kind, ktimer, now_ticks, set_queue, set_ktimer, set_runtime, set_thread_state, is_cfs_ktimer,
  record_wakeup, record_deadline_miss,
}
use rtsched.WaitQueue.{pop_expired_wait_thread}
use rtsched.RunQueue.{enqueue_runq_from_waitq}

abbrev pub enqueue_active : Kernel → Ptr → Kernel
enqueue_active k e = set_queue k (Queue.enqueue_active k.ktimer_queue e)

abbrev pub enqueue_inactive : Kernel → Ptr → Kernel
enqueue_inactive k e = set_queue k (Queue.enqueue_inactive k.ktimer_queue e)

-- When the wait timer is due: at the first finite wake time, or never.
abbrev pub first_wake_at : Kernel → ℕ
first_wake_at k = elim (Tree.first k.wait_queue) [
  | none ↦ expire_never
  | some p ↦ (k.threads p).wait_entity.wake_at
]

unfoldable pub update_wait_ktimer_deadline : Kernel → Ptr → Kernel
update_wait_ktimer_deadline k w = set_ktimer k w (set_expire_at (first_wake_at k) (ktimer k w))

-- The miss counter of an RT timer; the report goes to the board's print hook.
unfoldable pub record_rt_budget_overrun : Kernel → Ptr → Ptr → Kernel
record_rt_budget_overrun k e t =
    if ltb (ktimer k e).timing.budget_ticks (k.threads t).runtime
    then record k {
      rt_ktimers = λ p.
          if p == e
          then record (k.rt_ktimers e) { miss_cnt = saturating_add32 (k.rt_ktimers e).miss_cnt 1 }
          else k.rt_ktimers p;
    }
    else k

abbrev pub is_real_rt_deadline_miss : Kernel → Ptr → Ptr → Bool
is_real_rt_deadline_miss k e t =
    ltb (ktimer k e).timing.relative_deadline_ticks (k.threads t).runtime

-- `container_of(e).thread_ctx()`, which the callers dereference.
abbrev pub thread_of : Kernel → Ptr → Result Ptr
thread_of k e = elim (k.rt_ktimers e).thread_ctx [ none ↦ stopped null_pointer | some t ↦ done t ]

-- `record_rt_deadline_miss`, up to the printed report and the panic.
unfoldable pub record_rt_deadline_miss : Kernel → Ptr → Ptr → Kernel
unfolding record_deadline_miss
record_rt_deadline_miss k e t =
    let k' =
      record_deadline_miss k (some t) (k.threads t).runtime
        (ktimer k e).timing.relative_deadline_ticks in
    record k' {
      rt_ktimers = λ p.
          if p == e
          then record (k'.rt_ktimers e) { miss_cnt = saturating_add32 (k'.rt_ktimers e).miss_cnt 1 }
          else k'.rt_ktimers p;
    }

abbrev pub check_deadline : Kernel → Ptr → Bool → Ptr → Result (Unit {0})
check_deadline k e missed t =
    if missed then stopped (deadline_miss (record_rt_deadline_miss k e t) t) else done tt

-- The arm that starts an RT timer's next job window.
unfoldable pub renew_rt : Kernel → Ptr → Ptr → Kernel
renew_rt k e t =
    let k' = set_runtime k t 0 in
    set_ktimer k' e
      (set_expire_after (now_ticks k) (ktimer k e).timing.relative_deadline_ticks (ktimer k e))

-- The arm that starts the CFS timer's next period.
abbrev pub renew_cfs : Kernel → Ptr → Kernel
renew_cfs k e =
    set_ktimer k e (set_expire_after (now_ticks k) (ktimer k e).timing.period_ticks (ktimer k e))

-- An expired head of the active tree is renewed before the head is selected.
unfoldable pub renew_expired_active : Kernel → Ptr → Result Kernel
renew_expired_active k e =
    let r = set_queue k (Queue.remove k.ktimer_queue e) in
    if is_cfs_ktimer k e then done (enqueue_active (renew_cfs r e) e) else do
      t ← thread_of r e
      _ ← check_deadline r e (is_real_rt_deadline_miss r e t) t
      done (enqueue_active (renew_rt r e t) e)

unfoldable pub refresh_next_ktimer : Kernel → Result Kernel
refresh_next_ktimer k = elim k.ktimer_queue.first_active [
  | none ↦ done (record k { next_ktimer = none })
  | some e ↦
      if is_expired_at (now_ticks k) (ktimer k e)
      then (do
        k' ← renew_expired_active k e
        done (record k' { next_ktimer = k'.ktimer_queue.first_active }))
      else done (record k { next_ktimer = some e })
]

-- The wait timer moves only when its deadline does; the selected timer is refreshed either way.
unfoldable pub program_wait_ktimer : Kernel → Result Kernel
program_wait_ktimer k =
    let w = k.wait_ktimer in
    refresh_next_ktimer (
      if (ktimer k w).expire_at == first_wake_at k
      then k
      else let r = set_queue k (Queue.remove k.ktimer_queue w) in
        enqueue_inactive (set_ktimer r w (set_expire_at (first_wake_at k) (ktimer r w))) w)

-- What `wake_wait_thread` does for one thread that left the wait queue.
unfoldable pub wake_rt : Kernel → Ptr → ℕ → Result Kernel
wake_rt k t elapsed = elim (k.threads t).ktimer_entity [
  | none ↦ stopped null_pointer
  | some e ↦
      let run = saturating_add32 (k.threads t).runtime elapsed in
      let k' = record_rt_budget_overrun (set_runtime k t run) e t in
      let left = (ktimer k' e).timing.relative_deadline_ticks - run in
      done (enqueue_active (set_ktimer k' e (set_expire_after (now_ticks k') left (ktimer k' e))) e)
]

unfoldable pub wake_one : Kernel → Ptr → ℕ → Result Kernel
wake_one k t elapsed =
    let k' = record_wakeup (set_thread_state k t ready) (some t) in
    elim (kind k t) [
      | cfs ↦ done (enqueue_runq_from_waitq k' t)
      | rt ↦ wake_rt k' t elapsed
      | idle ↦ done k'
    ]

-- The loop of `wake_wait_thread`, one round for each waiting thread and one to see the end.
unfoldable pub wake_loop : ℕ → Kernel → ℕ → Result Kernel
wake_loop zero k elapsed = stopped out_of_fuel
wake_loop (suc fuel) k elapsed = elim (pop_expired_wait_thread k (now_ticks k)) [
  | none ↦ done k
  | some (t, k') ↦ wake_one k' t elapsed >>= λ k''. wake_loop fuel k'' elapsed
]

unfoldable pub wake_wait_thread : Kernel → ℕ → Result Kernel
wake_wait_thread k elapsed = wake_loop (length k.wait_queue + 1) k elapsed
