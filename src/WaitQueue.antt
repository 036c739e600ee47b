-- ===== src/WaitQueue.antt =====
-- src/waitq.rs: finite waits in a tree ordered by wake time, indefinite waits in a FIFO list.
-- The list is the sequence of its members here: pushed at the back, unlinked by address.
pub mod Expiry
pub mod Members
pub mod Suspended
use rtsched.Base.{
  ℕ, ◌-◌, Ptr, Bool, true, false, Option, none, some, List, [], ◌∷◌, ◌++◌, Ordering, compare, ◌==◌,
  leb, min, if◌then◌else◌, u32_max, u64_max, saturating_add64,
}
use rtsched.Tree
use rtsched.Tree.Order.{then_cmp}
use rtsched.SyncType.{cmp_waitevt}
use rtsched.Thread.{Thread, WaitEntity, ThreadState, ready, running, waiting, suspended}
use rtsched.Kernel.{Kernel, Result, done, ◌>>=◌}
use rtsched.Kernel.Access.{state, check_entity, set_thread_state}

unfoldable pub set_wake_after : ℕ → ℕ → WaitEntity → WaitEntity
set_wake_after now ticks e = record e { wake_at = saturating_add64 now ticks }

unfoldable pub remaining_at : ℕ → WaitEntity → ℕ
remaining_at now e = min (e.wake_at - now) u32_max

unfoldable pub is_expired_at : ℕ → WaitEntity → Bool
is_expired_at now e = leb e.wake_at now

-- `RBTreeNode for WaitEntity`
unfoldable pub cmp_wait : (Ptr → Thread) → Ptr → Ptr → Ordering
cmp_wait threads a b =
    let x = (threads a).wait_entity in
    let y = (threads b).wait_entity in
    then_cmp (compare x.wake_at y.wake_at)
      (then_cmp (cmp_waitevt x.waitevt y.waitevt) (compare a b))

-- The first member, if its wake time has come, leaves the tree.
unfoldable pub pop_expired_wait_thread : Kernel → ℕ → Option (Ptr × Kernel)
unfolding is_expired_at
pop_expired_wait_thread k now = elim k.wait_queue [
  | [] ↦ none
  | first ∷ rest ↦
      if is_expired_at now (k.threads first).wait_entity
      then some (first, record k { wait_queue = rest })
      else none
]

unfoldable pub insert_wait_thread : Kernel → Ptr → Result Kernel
insert_wait_thread k p = do
  _ ← check_entity k p
  done (
      if (k.threads p).wait_entity.wake_at == u64_max
      then record (set_thread_state k p suspended) { suspended = k.suspended ++ (p ∷ []) }
      else let k' = set_thread_state k p waiting in
        record k' { wait_queue = Tree.insert (cmp_wait k'.threads) p k.wait_queue })

abbrev pub is_suspended : ThreadState → Bool
is_suspended ready = false
is_suspended running = false
is_suspended waiting = false
is_suspended suspended = true

unfoldable pub remove_wait_thread : Kernel → Ptr → Result Kernel
remove_wait_thread k p = do
  _ ← check_entity k p
  done (
      if is_suspended (state k p)
      then record k { suspended = Tree.remove p k.suspended }
      else record k { wait_queue = Tree.remove p k.wait_queue })

-- `next_wait_entity`: finite waits in order, then indefinite ones.
abbrev pub or_head : Option Ptr → List Ptr → Option Ptr
or_head none fifo = Tree.first fifo
or_head (some e) fifo = some e

unfoldable pub next_wait_entity : Kernel → Option Ptr → Option Ptr
next_wait_entity k none = or_head (Tree.first k.wait_queue) k.suspended
next_wait_entity k (some p) =
    if is_suspended (state k p)
    then Tree.next p k.suspended
    else or_head (Tree.next p k.wait_queue) k.suspended
