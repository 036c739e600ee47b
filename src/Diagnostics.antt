-- ===== src/Diagnostics.antt =====
-- The traversals of src/diagnostics: ktimer.rs, runq.rs, waitq.rs and sched.rs. A callback is a
-- function of the visited thread or timer; a traversal gives its values in the order of the calls.
pub mod Walk
pub mod Threads
pub mod Next
pub mod Merged
pub mod Timers
use Prim.Native.String.{String}
use rtsched.Base.{
  ℕ, zero, suc, ◌+◌, Ptr, Bool, true, false, ◌&&◌, Option, none, some, List, [], ◌∷◌, length, ◌==◌,
  if◌then◌else◌, is_some, same_ptr,
}
use rtsched.Tree
use rtsched.Kernel.{Kernel, Result, done, stopped, ◌>>=◌, out_of_fuel}
use rtsched.Kernel.Access.{is_cfs_ktimer, is_wait_ktimer, ktimer, now_ticks}
use rtsched.KTimer.{remaining_at}
use rtsched.KTimer.Queue
use rtsched.WaitQueue.{next_wait_entity}

-- `while let Some(e) = cursor { f(e); cursor = next(e) }`, in a number of rounds.
unfoldable pub walk :
    {A : Type 0} → (Ptr → A) → (Ptr → Option Ptr) → ℕ → Option Ptr → Result (List A)
walk f next n none = done []
walk f next zero (some e) = stopped out_of_fuel
walk f next (suc n) (some e) = walk f next n (next e) >>= λ rest. done (f e ∷ rest)

abbrev pub ktimer_name : Kernel → Ptr → String
ktimer_name k e =
    if is_cfs_ktimer k e
    then "cfs"
    else if is_wait_ktimer k e
    then "wait"
    else (k.rt_ktimers e).name

-- The callback is given the name and the remaining ticks of a timer.
unfoldable pub traverse_ktimer_queue_fn :
    {A : Type 0} → (Ptr → String → ℕ → A) → Kernel → Result (List A)
unfolding walk Queue.first Queue.next
traverse_ktimer_queue_fn f k =
    walk (λ e. f e (ktimer_name k e) (remaining_at (now_ticks k) (ktimer k e)))
      (Queue.next k.ktimer_queue) (Queue.len k.ktimer_queue) (Queue.first k.ktimer_queue)

-- The running CFS thread comes first, then the queued ones.
unfoldable pub traverse_run_queue : Kernel → Option Ptr → Option Ptr
traverse_run_queue k none =
    if k.current_thread_is_cfs && is_some k.current_thread_ctx
    then k.current_thread_ctx
    else Tree.first k.run_queue
traverse_run_queue k (some thread) =
    if same_ptr (some thread) k.current_thread_ctx
    then Tree.first k.run_queue
    else Tree.next thread k.run_queue

unfoldable pub traverse_run_queue_fn : {A : Type 0} → (Ptr → A) → Kernel → Result (List A)
unfolding walk traverse_run_queue
traverse_run_queue_fn f k =
    walk f (λ p. traverse_run_queue k (some p)) (length k.run_queue + 1) (traverse_run_queue k none)

unfoldable pub traverse_wait_queue_fn : {A : Type 0} → (Ptr → A) → Kernel → Result (List A)
unfolding walk next_wait_entity
traverse_wait_queue_fn f k =
    walk f (λ p. next_wait_entity k (some p)) (length k.wait_queue + length k.suspended)
      (next_wait_entity k none)

abbrev pub traverse_idle_thread_fn : {A : Type 0} → (Ptr → A) → Kernel → List A
traverse_idle_thread_fn f k = elim k.idle_thread_ctx [ none ↦ [] | some p ↦ f p ∷ [] ]
