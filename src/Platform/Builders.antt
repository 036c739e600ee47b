-- ===== src/Platform/Builders.antt =====
-- The thread builders of src/thread.rs, on the Cortex-M port: a thread and its first frame.
use Prim.Native.String.{String}
use rtsched.Base.{ℕ, Ptr, Option, some, ◌≡◌, ◌<◌, ◌+◌, ◌*◌, ◌%◌, ◌^◌, ◌∈◌, ◌∉◌}
use rtsched.Kernel.{Kernel, Result, done, ◌>>=◌, Returns, Returns->>=, ok}
use rtsched.RunQueue.Order.{IsOrdered}
use rtsched.Spawn.{Stack, spawn_thread, cfs_args, rt_args, InitArgs, validate_stack, top_of}
use rtsched.Spawn.Created.{spawn_thread-queued}
use rtsched.Platform.Frame.{Words, init_cortex_m_thread_stack}
use rtsched.Platform.Frame.Layout.{HoldsFrame, init_cortex_m_thread_stack-HoldsFrame}
use rtsched.Platform.Boot.{stack_top}

-- Entry and argument are addresses; a new start has a null argument.
pub record ThreadStart : Type 0 where
  pub name : String
  pub entry : ℕ
  pub arg : ℕ

abbrev pub new : String → ℕ → ThreadStart
new name entry = record { name = name; entry = entry; arg = 0 }

abbrev pub with_arg : ThreadStart → ℕ → ThreadStart
with_arg start arg = record start { arg = arg }

pub record CfsThreadBuilder : Type 0 where
  pub start : ThreadStart
  pub priority : ℕ

pub record RtThreadBuilder : Type 0 where
  pub start : ThreadStart
  pub ktimer : Option Ptr

-- `spawn_thread` with the frame of the port: the store, the globals and the handle.
unfoldable pub spawn_start :
    Words → Kernel → ThreadStart → Option Ptr → Stack → InitArgs → Result (Words × Kernel × Ptr)
unfolding init_cortex_m_thread_stack spawn_thread
spawn_start m k start thread stack args = do
  let frame = λ (top : Ptr). init_cortex_m_thread_stack m top start.entry start.arg
  (k', p) ← spawn_thread (λ top. (frame top).1) k thread stack start.name args
  done ((frame (stack_top stack)).0, k', p)

unfoldable pub spawn_cfs :
    Words → Kernel → CfsThreadBuilder → Option Ptr → Stack → Result (Words × Kernel × Ptr)
unfolding spawn_start
spawn_cfs m k b thread stack = spawn_start m k b.start thread stack (cfs_args b.priority)

unfoldable pub spawn_rt :
    Words → Kernel → RtThreadBuilder → Option Ptr → Stack → Result (Words × Kernel × Ptr)
unfolding spawn_start
spawn_rt m k b thread stack = spawn_start m k b.start thread stack (rt_args b.ktimer)

-- A CFS thread built with a valid stack and a priority other than 0 is queued to run, in order, and
-- the first frame at the end of its stack has its entry and its argument.
pub spawn_cfs-HoldsFrame :
    (m : Words) (k : Kernel) (b : CfsThreadBuilder) (p : Ptr) (base words : ℕ)
    → 0 < b.priority
    → base + 4 * words < 2 ^ 32
    → validate_stack (record { base = some base; words = words }) ≡ ok tt
    → p ∉ k.run_queue
    → IsOrdered k
    → Returns
        (λ r.
          (r.2 ≡ p)
          × IsOrdered r.1
          × (p ∈ r.1.run_queue)
          × HoldsFrame m r.0
              (init_cortex_m_thread_stack m (top_of base words) b.start.entry b.start.arg).1.sp
              (b.start.entry % 2 ^ 32)
              (b.start.arg % 2 ^ 32))
        (spawn_cfs m k b (some p) (record { base = some base; words = words }))
unfolding spawn_cfs spawn_start
spawn_cfs-HoldsFrame m k b p base words pos small v out s =
    let stack : Stack = record { base = some base; words = words } in
    let frame = λ (top : Ptr). init_cortex_m_thread_stack m top b.start.entry b.start.arg in
    Returns->>= _ _
      (spawn_thread (λ top. (frame top).1) k (some p) stack b.start.name (cfs_args b.priority)) _
      (spawn_thread-queued (λ top. (frame top).1) k p stack b.start.name b.priority pos v out s)
      λ r h. (
        h.0,
        h.1,
        h.2,
        (init_cortex_m_thread_stack-HoldsFrame m base words b.start.entry b.start.arg small v).2,
      )
