-- ===== src/Spawn/Created.antt =====
-- Threads that src/thread.rs creates.
use Prim.Native.String.{String}
use native.Mathlib.Nat.{mod-eq_of_lt}
use rtsched.Base.{
  ℕ, ◌==◌, false, ◌+◌, ◌*◌, ◌%◌, ◌^◌, ◌≤◌, ◌<◌, ◌≡◌, refl, ap, ◌∙◌, Ptr, some, none, arith, ◌∉◌,
  ◌∈◌, length, All-of_mem,
}
use rtsched.Tree.Frame.{IsSorted-frame}
use rtsched.Kernel.{Kernel, Returns, ok}
use rtsched.RunQueue.{sched}
use rtsched.RunQueue.Order.{vruntime, IsOrdered, enqueue_thread-IsOrdered}
use rtsched.Thread.{cfs, Thread}
use rtsched.Spawn.{
  Stack, validate_stack, top_of, cfs_args, InitialThreadContext, spawn_thread, forkyi,
  init_cfs_thread, put_thread, fresh_thread, common_ctx, validate_init_args,
  validate_thread_storage,
}

-- An accepted stack, if it does not run over the end of memory, has room for the initial frame
-- below its top, which is aligned for the processor.
pub validate_stack-fits :
    (base words : ℕ)
    → base + 4 * words < 2 ^ 32
    → validate_stack (record { base = some base; words = words }) ≡ ok tt
    → (base + 4 * 16 ≤ top_of base words) × (top_of base words % 8 ≡ 0)
unfolding validate_stack
validate_stack-fits base words h v =
    let whole : top_of base words ≡ base + 4 * words = mod-eq_of_lt h in ground (arith, whole)

put_thread-IsOrdered :
    (k : Kernel) (p : Ptr) (t : Thread)
    → p ∉ k.run_queue
    → IsOrdered k
    → IsOrdered (put_thread k p t)
put_thread-IsOrdered k p t out s =
    let k' = put_thread k p t in
    IsSorted-frame (vruntime k) (vruntime k') k.run_queue
      (All-of_mem (λ a. vruntime k' a ≡ vruntime k a) k.run_queue λ a m. ground arith) s

pos_priority : (n : ℕ) → 0 < n → (n == 0) ≡ false
pos_priority n h = ground arith

-- A CFS thread created with a valid stack and a priority other than 0 is queued to run: the run
-- queue stays in order, and its priority is counted.
pub spawn_thread-queued :
    (init_stack : ℕ → InitialThreadContext) (k : Kernel) (p : Ptr) (stack : Stack) (name : String)
    → (priority : ℕ) → 0 < priority
    → validate_stack stack ≡ ok tt
    → p ∉ k.run_queue
    → IsOrdered k
    → Returns
        (λ r.
          (r.1 ≡ p)
          × IsOrdered r.0
          × (p ∈ r.0.run_queue)
          × (length r.0.run_queue ≡ length k.run_queue + 1)
          × (r.0.priority_sum ≡ (k.priority_sum + priority) % 2 ^ 32))
        (spawn_thread init_stack k (some p) stack name (cfs_args priority))
unfolding spawn_thread validate_init_args validate_thread_storage forkyi init_cfs_thread
spawn_thread-queued init_stack k p stack name priority pos v out s =
    let set = pos_priority priority pos in
    rw (set, spawn_thread)
      (rw v (
        let c =
          common_ctx k
            (init_stack (elim stack.base [ none ↦ 0 | some base ↦ top_of base stack.words ])) name
            cfs in
        let r = put_thread k p (fresh_thread c priority none) in
        let queued =
          enqueue_thread-IsOrdered r p out
            (put_thread-IsOrdered k p (fresh_thread c priority none) out s) in
        let new : (sched r.threads p).priority ≡ priority = ground arith in
        (
          refl,
          queued.0,
          queued.1,
          queued.2,
          queued.3 ∙ ap (λ n. (k.priority_sum + n) % 2 ^ 32) new,
        )))
