-- ===== src/Deadline.antt =====
-- The scheduler deadline of a thread, read and written by the mutex: src/ktimer.rs.
pub mod States
pub mod Expiry
use rtsched.Base.{ℕ, zero, suc, Ptr, true, false, Option, none, some, if◌then◌else◌, same_ptr}
use rtsched.KTimer.{expire_never, set_expire_at}
use rtsched.KTimer.Queue
use rtsched.KTimer.Queue.{KTimerQueue}
use rtsched.Kernel.{Kernel, Result, done, stopped, out_of_fuel}
use rtsched.Kernel.Access.{ktimer, set_queue, set_ktimer, is_wait_ktimer}
use rtsched.Timers.{refresh_next_ktimer, enqueue_active, enqueue_inactive}
use rtsched.Yield.{scheduler_ktimer}

abbrev pub thread_scheduler_expire_at : Kernel → Ptr → ℕ
thread_scheduler_expire_at k p = elim (scheduler_ktimer k p) [
  | none ↦ expire_never
  | some e ↦ (ktimer k e).expire_at
]

-- The walk over the queued timers skips the wait timer, which stands there once: two rounds
-- decide, and the walk takes one for each queued timer.
unfoldable pub first_scheduler_expiry : ℕ → Kernel → Option Ptr → Result ℕ
first_scheduler_expiry zero k e = stopped out_of_fuel
first_scheduler_expiry (suc fuel) k none = done expire_never
first_scheduler_expiry (suc fuel) k (some e) = elim (is_wait_ktimer k e) [
  | false ↦ done (ktimer k e).expire_at
  | true ↦ first_scheduler_expiry fuel k (Queue.next k.ktimer_queue e)
]

unfoldable pub earliest_queued_scheduler_expire_at : Kernel → Result ℕ
earliest_queued_scheduler_expire_at k =
    first_scheduler_expiry (suc (suc (Queue.len k.ktimer_queue))) k (Queue.first k.ktimer_queue)

-- A queued timer is taken out, re-keyed and put back into the tree that it came from.
unfoldable pub rekey : Kernel → Ptr → ℕ → Result Kernel
rekey k e expire_at =
    let was_active = (ktimer k e).active in
    let r = set_queue k (Queue.remove k.ktimer_queue e) in
    let k' = set_ktimer r e (set_expire_at expire_at (ktimer r e)) in
    refresh_next_ktimer (if was_active then enqueue_active k' e else enqueue_inactive k' e)

unfoldable pub set_thread_scheduler_expire_at : Kernel → Ptr → ℕ → Result Kernel
set_thread_scheduler_expire_at k p expire_at = elim (scheduler_ktimer k p) [
  | none ↦ done k
  | some e ↦
      let k' = set_ktimer k e (set_expire_at expire_at (ktimer k e)) in
      if Queue.contains k.ktimer_queue e
      then rekey k e expire_at
      else if same_ptr k.next_ktimer (some e)
      then refresh_next_ktimer k'
      else done k'
]
