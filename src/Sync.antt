-- ===== src/Sync.antt =====
-- src/sync.rs: blocking on a synchronization object, its waiters in deadline order, and waking one.
pub mod Semaphore
pub mod Mutex
pub mod Waiters
use rtsched.Base.{
  ℕ, Ptr, Bool, true, false, Option, none, some, List, [], ◌∷◌, Ordering, if◌then◌else◌, u64_max,
}
use rtsched.Tree
use rtsched.Tree.Order.{cmp_key}
use rtsched.SyncType.{SyncType}
use rtsched.Thread.{Thread, ThreadKind, idle, cfs, rt, is_blocked}
use rtsched.Kernel.{
  Kernel, Result, done, stopped, ◌>>=◌, Except, ok, err, WaitQueueError, not_found,
}
use rtsched.Kernel.Access.{
  state, kind, ktimer, set_wait_entity, set_sync_entity, check_entity, record_wakeup,
  request_context_switch,
}
use rtsched.WaitQueue.{remove_wait_thread}
use rtsched.RunQueue.{enqueue_runq_from_waitq}
use rtsched.Timers.{program_wait_ktimer}
use rtsched.Blocking.{
  dequeue_runq_to_waitq, dequeue_ktimerq_to_waitq, enqueue_ktimerq_from_waitq,
  elapsed_ticks_since_current_reload,
}
use rtsched.Yield.{scheduler_ktimer, yield_nullable, is_idle_kind}

abbrev pub wait_forever_ticks : ℕ
wait_forever_ticks = u64_max

-- `WaitTree`, as the sequence of its threads.
abbrev pub WaitTree : Type 0
WaitTree = List Ptr

-- `RBTreeNode for SyncEntity`
abbrev pub cmp_sync_entity : (Ptr → Thread) → Ptr → Ptr → Ordering
cmp_sync_entity threads = cmp_key (λ p. (threads p).sync_entity.deadline_at)

-- The scheduler deadline that a blocking thread is queued under.
abbrev pub deadline_of : Kernel → Ptr → ℕ
deadline_of k p = elim (scheduler_ktimer k p) [
  | none ↦ wait_forever_ticks
  | some e ↦ (ktimer k e).expire_at
]

unfoldable pub block_current_thread :
    Kernel → Ptr → SyncType → Result (Kernel × Except WaitQueueError ℕ)
block_current_thread k p sync_type = if is_idle_kind (kind k p) then done (k, err not_found) else do
  (k', _) ← yield_nullable k (scheduler_ktimer k p) (elapsed_ticks_since_current_reload k) false
  let w = set_wait_entity k' p (record { wake_at = wait_forever_ticks; waitevt = some sync_type })
  (r, moved) ← elim (kind w p) [
    | cfs ↦ dequeue_runq_to_waitq w p
    | rt ↦ dequeue_ktimerq_to_waitq w p
    | idle ↦ done (w, err not_found)
  ]
  done (r, (elim moved [ ok _ ↦ ok (deadline_of k p) | err x ↦ err x ]))

unfoldable pub insert_sync_waiter : Kernel → WaitTree → Ptr → ℕ → Result (Kernel × WaitTree)
insert_sync_waiter k waiters p deadline_at = do
  _ ← check_entity k p
  let k' = set_sync_entity k p (record { deadline_at = deadline_at })
  done (k', Tree.insert (cmp_sync_entity k'.threads) p waiters)

-- The waiter with the earliest deadline leaves the tree; it is handed on only if it is blocked.
unfoldable pub pop_waiting_thread : Kernel → WaitTree → Option Ptr × WaitTree
pop_waiting_thread k [] = (none, [])
pop_waiting_thread k (p ∷ rest) = (if is_blocked (state k p) then some p else none, rest)

unfoldable pub wake_waiter : Kernel → Ptr → Result (Kernel × Except WaitQueueError (Unit {0}))
wake_waiter k p = elim (kind k p) [
  | cfs ↦ do
    k' ← remove_wait_thread k p
    r ← program_wait_ktimer (enqueue_runq_from_waitq (record_wakeup k' (some p)) p)
    done (r, ok tt)
  | rt ↦ enqueue_ktimerq_from_waitq k p
  | idle ↦ done (k, ok tt)
]

-- `block_current_thread_on`: the object's tree of waiters is returned beside the globals.
unfoldable pub block_current_thread_on :
    Kernel → WaitTree → SyncType → Ptr → Result (Kernel × WaitTree × Except WaitQueueError ℕ)
block_current_thread_on k waiters sync_type p = do
  (k', blocked) ← block_current_thread k p sync_type
  elim blocked [
    | err x ↦ done (k', waiters, err x)
    | ok deadline_at ↦ do
      (r, waiters') ← insert_sync_waiter k' waiters p deadline_at
      done (request_context_switch r, waiters', ok deadline_at)
  ]
