-- ===== src/Thread.antt =====
-- src/thread.rs: thread states and kinds, and the thread control blocks.
pub mod States
use Prim.Native.String.{String}
use rtsched.Base.{ℕ, Ptr, Option, Bool, true, false}
use rtsched.SyncType.{SyncType}

pub data ThreadState : Type 0 where
  ready running waiting suspended : ThreadState

pub data ThreadKind : Type 0 where
  idle cfs rt : ThreadKind

-- What the thread builders refuse.
pub data ThreadSpawnError : Type 0 where
  null_thread_storage null_stack unaligned_stack_top zero_priority null_rt_timer : ThreadSpawnError
  stack_too_small : (required_words actual_words : ℕ) → ThreadSpawnError

abbrev pub is_blocked : ThreadState → Bool
is_blocked ready = false
is_blocked running = false
is_blocked waiting = true
is_blocked suspended = true

abbrev pub can_transition_to : ThreadState → ThreadState → Bool
can_transition_to ready next = true
can_transition_to running next = true
can_transition_to waiting ready = true
can_transition_to waiting waiting = true
can_transition_to waiting running = false
can_transition_to waiting suspended = false
can_transition_to suspended ready = true
can_transition_to suspended suspended = true
can_transition_to suspended running = false
can_transition_to suspended waiting = false

abbrev pub is_idle : ThreadKind → Bool
is_idle idle = true
is_idle cfs = false
is_idle rt = false

abbrev pub is_cfs : ThreadKind → Bool
is_cfs idle = false
is_cfs cfs = true
is_cfs rt = false

abbrev pub is_rt : ThreadKind → Bool
is_rt idle = false
is_rt cfs = false
is_rt rt = true

pub record ThreadCtx : Type 0 where
  pub sp : ℕ
  pub exc_return : ℕ
  pub id : ℕ
  pub name : String
  pub state : ThreadState
  pub kind : ThreadKind

-- `WaitEntity` of src/waitq.rs; its tree and list links are the wait queue's sequences.
pub record WaitEntity : Type 0 where
  pub wake_at : ℕ
  pub waitevt : Option SyncType

-- `SyncEntity` of src/sync.rs; its links are the waiter sequence of the object waited for.
pub record SyncEntity : Type 0 where
  pub deadline_at : ℕ

-- `SchedEntity` of src/runq.rs; its links are the run queue's sequence.
pub record SchedEntity : Type 0 where
  pub sched_tick_cnt : ℕ
  pub vruntime : ℕ
  pub priority : ℕ

-- `CfsThread`, `RtThread` and `IdleThread` in one record: the kind says which entities are in use.
-- A thread and its embedded entities share one address: each entity type stands at one offset.
pub record Thread : Type 0 where
  pub ctx : ThreadCtx
  pub wait_entity : WaitEntity
  pub sync_entity : SyncEntity
  pub sched_entity : SchedEntity
  pub ktimer_entity : Option Ptr
  pub runtime : ℕ

-- `ThreadCtx::set_state`. The transition check is a debug assertion.
abbrev pub set_state : ThreadState → Thread → Thread
set_state next t = record t { ctx = record (t.ctx) { state = next } }

abbrev pub state_of : Thread → ThreadState
state_of t = t.ctx.state

abbrev pub kind_of : Thread → ThreadKind
kind_of t = t.ctx.kind
