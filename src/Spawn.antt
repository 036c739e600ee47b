-- ===== src/Spawn.antt =====
-- Thread creation in src/thread.rs, and `init_ktimer_queue` of src/ktimer.rs.
pub mod Created
use Prim.Native.String.{String}
use rtsched.Base.{
  ℕ, ◌+◌, ◌*◌, ◌%◌, ◌^◌, Ptr, false, Option, none, some, ◌==◌, ltb, if◌then◌else◌, update,
}
use rtsched.Thread.{
  ThreadSpawnError, null_thread_storage, null_stack, unaligned_stack_top, zero_priority,
  null_rt_timer, stack_too_small, ThreadCtx, ThreadKind, idle, cfs, rt, Thread, WaitEntity, ready,
}
use rtsched.KTimer.{new_wait}
use rtsched.KTimer.Queue
use rtsched.Kernel.{Kernel, Result, done, stopped, ◌>>=◌, spawn_error, Except, ok, err}
use rtsched.Kernel.Access.{set_queue, set_ktimer}
use rtsched.RunQueue.{enqueue_thread}
use rtsched.Timers.{enqueue_active, enqueue_inactive, refresh_next_ktimer}

-- `THREAD_INITIAL_FRAME_WORDS` and `THREAD_STACK_ALIGNMENT` of both platforms.
abbrev pub initial_frame_words : ℕ
initial_frame_words = 16

abbrev pub stack_alignment : ℕ
stack_alignment = 8

-- A stack object: its base address, null or not, and its size in 32-bit words.
pub record Stack : Type 0 where
  pub base : Option Ptr
  pub words : ℕ

-- `wrapping_add(N)` words from the base, on a 32-bit target.
abbrev pub top_of : Ptr → ℕ → ℕ
top_of base words = (base + 4 * words) % 2 ^ 32

unfoldable pub validate_stack : Stack → Except ThreadSpawnError (Unit {0})
validate_stack s = elim s.base [
  | none ↦ err null_stack
  | some base ↦
      if ltb s.words initial_frame_words
      then err (stack_too_small initial_frame_words s.words)
      else if top_of base s.words % stack_alignment == 0
      then ok tt
      else err unaligned_stack_top
]

unfoldable pub validate_thread_storage : Option Ptr → Except ThreadSpawnError Ptr
validate_thread_storage none = err null_thread_storage
validate_thread_storage (some p) = ok p

-- What the builders are given: `CfsThread` takes a priority, `RtThread` a timer.
pub data InitArgs : Type 0 where
  cfs_args : (priority : ℕ) → InitArgs
  rt_args : (ktimer : Option Ptr) → InitArgs

unfoldable pub validate_init_args : InitArgs → Except ThreadSpawnError (Unit {0})
validate_init_args (cfs_args priority) = if priority == 0 then err zero_priority else ok tt
validate_init_args (rt_args none) = err null_rt_timer
validate_init_args (rt_args (some e)) = ok tt

abbrev pub new_wait_entity : WaitEntity
new_wait_entity = record { wake_at = 0; waitevt = none }

-- The thread that `init` writes; the fields of another class are unused.
abbrev pub fresh_thread : ThreadCtx → ℕ → Option Ptr → Thread
fresh_thread common priority timer = record {
  ctx = common;
  wait_entity = new_wait_entity;
  sync_entity = record { deadline_at = 0 };
  sched_entity = record { sched_tick_cnt = 0; vruntime = 0; priority = priority };
  ktimer_entity = timer;
  runtime = 0;
}

-- The platform builds the initial frame: `sp` and `exc_return` are what it returns.
pub record InitialThreadContext : Type 0 where
  pub sp : ℕ
  pub exc_return : ℕ

abbrev pub common_ctx : Kernel → InitialThreadContext → String → ThreadKind → ThreadCtx
common_ctx k c name kind = record {
  sp = c.sp;
  exc_return = c.exc_return;
  id = k.next_thread_id;
  name = name;
  state = ready;
  kind = kind;
}

abbrev pub put_thread : Kernel → Ptr → Thread → Kernel
put_thread k p t = record k {
  threads = update k.threads p t;
  next_thread_id = (k.next_thread_id + 1) % 2 ^ 32;
}

-- A priority of 0 is an assertion's panic.
unfoldable pub init_cfs_thread : Kernel → Ptr → ThreadCtx → ℕ → Result Kernel
init_cfs_thread k p common priority =
    if priority == 0
    then stopped (spawn_error zero_priority)
    else done (enqueue_thread (put_thread k p (fresh_thread common priority none)) p)

-- `init_rt_ktimer` links the thread and its timer to one another.
unfoldable pub init_rt_thread : Kernel → Ptr → ThreadCtx → Ptr → Result Kernel
init_rt_thread k p common e =
    let k' = put_thread k p (fresh_thread common 0 (some e)) in
    let linked = record k' {
      rt_ktimers = update k'.rt_ktimers e (record (k'.rt_ktimers e) { thread_ctx = some p });
    } in
    refresh_next_ktimer (enqueue_active linked e)

-- `forkyi`
unfoldable pub forkyi : Kernel → Ptr → InitialThreadContext → String → InitArgs → Result Kernel
forkyi k p c name (cfs_args priority) = init_cfs_thread k p (common_ctx k c name cfs) priority
forkyi k p c name (rt_args none) = stopped (spawn_error null_rt_timer)
forkyi k p c name (rt_args (some e)) = init_rt_thread k p (common_ctx k c name rt) e

-- `unwrap_or_else(|error| panic!(..))`
abbrev pub or_panic {ℓ} : {A : Type ℓ} → Except ThreadSpawnError A → Result A
or_panic (ok a) = done a
or_panic (err x) = stopped (spawn_error x)

-- `spawn_thread`. The frame that the platform builds at the stack's top is its own.
unfoldable pub spawn_thread :
    (ℕ → InitialThreadContext)
    → Kernel
    → Option Ptr
    → Stack
    → String
    → InitArgs
    → Result (Kernel × Ptr)
spawn_thread init_stack k thread stack name args = do
  _ ← or_panic (validate_init_args args)
  p ← or_panic (validate_thread_storage thread)
  _ ← or_panic (validate_stack stack)
  let c = init_stack (elim stack.base [ none ↦ 0 | some base ↦ top_of base stack.words ])
  k' ← forkyi k p c name args
  done (k', p)

unfoldable pub spawn_idle_thread :
    (ℕ → InitialThreadContext) → Kernel → Option Ptr → Stack → String → Result (Kernel × Ptr)
spawn_idle_thread init_stack k thread stack name = do
  p ← or_panic (validate_thread_storage thread)
  _ ← or_panic (validate_stack stack)
  let c = init_stack (elim stack.base [ none ↦ 0 | some base ↦ top_of base stack.words ])
  done (put_thread k p (fresh_thread (common_ctx k c name idle) 0 none), p)

-- The queue is emptied, and the wait timer is queued as inactive, due never.
unfoldable pub init_ktimer_queue : Kernel → Kernel
init_ktimer_queue k =
    let q = Queue.new k.ktimer_queue.entities in
    let k' = set_ktimer (record (set_queue k q) { next_ktimer = none }) k.wait_ktimer new_wait in
    enqueue_inactive k' k.wait_ktimer
