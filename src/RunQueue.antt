-- ===== src/RunQueue.antt =====
-- src/runq.rs: the CFS run queue, ordered by virtual runtime. Unchecked arithmetic wraps, as in a
-- release build.
pub mod Vruntime
pub mod Order
pub mod Requeue
use rtsched.Base.{
  ℕ, ◌+◌, ◌*◌, ◌/◌, ◌%◌, ◌^◌, Ptr, none, some, List, [], ◌∷◌, Ordering, ◌==◌, if◌then◌else◌,
  saturating_add32,
}
use rtsched.Tree
use rtsched.Tree.Order.{cmp_key}
use rtsched.Thread.{Thread, SchedEntity, ready}
use rtsched.Kernel.{Kernel}
use rtsched.Kernel.Access.{set_thread_state, set_sched_entity}

unfoldable pub cfs_vruntime_delta : ℕ → ℕ → ℕ → ℕ
cfs_vruntime_delta elapsed_ticks priority priority_sum =
    if priority_sum == 0 then 0 else elapsed_ticks * priority % 2 ^ 64 / priority_sum

-- No priority is 0: thread creation refuses it.
unfoldable pub cfs_sched_ticks_from_vruntime : ℕ → ℕ → ℕ → ℕ
cfs_sched_ticks_from_vruntime vruntime priority priority_sum =
    if priority_sum == 0 then 0 else vruntime * priority_sum % 2 ^ 64 / priority

abbrev pub sched : (Ptr → Thread) → Ptr → SchedEntity
sched threads p = (threads p).sched_entity

-- `RBTreeNode for SchedEntity`
abbrev pub cmp_sched : (Ptr → Thread) → Ptr → Ptr → Ordering
cmp_sched threads = cmp_key (λ p. (sched threads p).vruntime)

unfoldable pub enqueue : Kernel → Ptr → Kernel
enqueue k p = record k { run_queue = Tree.insert (cmp_sched k.threads) p k.run_queue }

-- A joining entity takes over the left-most entity's vruntime.
unfoldable pub update_from_leftmost : Kernel → Ptr → Kernel
unfolding cfs_sched_ticks_from_vruntime
update_from_leftmost k p = elim (Tree.first k.run_queue) [
  | none ↦ k
  | some leftmost ↦
      let v = (sched k.threads leftmost).vruntime in
      set_sched_entity k p (record {
        sched_tick_cnt =
            cfs_sched_ticks_from_vruntime v (sched k.threads p).priority k.priority_sum;
        vruntime = v;
        priority = (sched k.threads p).priority;
      })
]

unfoldable pub enqueue_thread : Kernel → Ptr → Kernel
enqueue_thread k p =
    let k' = enqueue (update_from_leftmost (set_thread_state k p ready) p) p in
    record k' { priority_sum = (k'.priority_sum + (sched k'.threads p).priority) % 2 ^ 32 }

-- `while let Some(e) = tree.pop_first()`: the left-most entities move, one by one, to a new tree,
-- each with its tick count recomputed.
unfoldable pub requeue : Kernel → List Ptr → List Ptr → Kernel
unfolding cfs_sched_ticks_from_vruntime
requeue k [] updated = record k { run_queue = updated }
requeue k (e ∷ tree) updated =
    let s = sched k.threads e in
    let ticks = cfs_sched_ticks_from_vruntime s.vruntime s.priority k.priority_sum in
    let k' = set_sched_entity k e (record s { sched_tick_cnt = ticks }) in
    requeue k' tree (Tree.insert (cmp_sched k'.threads) e updated)

unfoldable pub enqueue_runq_from_waitq : Kernel → Ptr → Kernel
enqueue_runq_from_waitq k p =
    let sum = saturating_add32 k.priority_sum (sched k.threads p).priority in
    let k' = set_thread_state (record k { priority_sum = sum }) p ready in
    enqueue (update_from_leftmost (requeue k' k'.run_queue []) p) p
