-- ===== src/Tests/Queues.antt =====
-- The theorems on the run queue, the wait queue and thread creation, at a concrete board.
use rtsched.Base.{
  ℕ, ◌≡◌, ◌≤◌, ◌||◌, Ptr, none, some, [], ◌∷◌, ◌==◌, arith, All, refl, length, has, ◌∈◌,
}
use rtsched.Kernel.{Returns, ok}
use rtsched.WaitQueue.{cmp_wait, pop_expired_wait_thread}
use rtsched.WaitQueue.Expiry.{
  wake_at, IsExpiry, pop_expired_wait_thread-IsExpiry, cmp_wait-IsStrict,
}
use rtsched.Tree.Order.{IsStrict}
use rtsched.RunQueue.{sched, enqueue_thread, enqueue_runq_from_waitq, cfs_vruntime_delta}
use rtsched.RunQueue.Order.{IsOrdered, enqueue_thread-IsOrdered}
use rtsched.RunQueue.Requeue.{reticked, enqueue_runq_from_waitq-IsOrdered}
use rtsched.RunQueue.Vruntime.{cfs_vruntime_delta-bounds}
use rtsched.WaitQueue.{insert_wait_thread, remove_wait_thread}
use rtsched.WaitQueue.Members.{insert_wait_thread_lem, remove_wait_thread-insert_wait_thread}
use rtsched.Tree.Order.{IsSorted}
use rtsched.Thread.{waiting, suspended}
use rtsched.Kernel.{◌>>=◌}
use rtsched.Kernel.Access.{state}
use rtsched.Base.{◌==◌, ◌&&◌, not, ◌||◌, ◌++◌, u64_max, if◌then◌else◌}
use rtsched.Spawn.{InitialThreadContext, validate_stack, spawn_thread, cfs_args}
use rtsched.Spawn.Created.{spawn_thread-queued}
use rtsched.SyncType.{mutex, from_wait_event}
use rtsched.Tests.Board.{board, threads}

enqueue_thread-IsOrdered_example :
    IsOrdered (enqueue_thread board 4)
    × (4 ∈ (enqueue_thread board 4).run_queue)
    × (length (enqueue_thread board 4).run_queue ≡ 2)
    × ((enqueue_thread board 4).priority_sum ≡ 9)
enqueue_thread-IsOrdered_example = enqueue_thread-IsOrdered board 4 refl (tt, tt)

enqueue_runq_from_waitq-IsOrdered_example :
    IsOrdered (enqueue_runq_from_waitq board 4)
    × ((a : Ptr) → has a (enqueue_runq_from_waitq board 4).run_queue ≡ ((a == 4) || has a (3 ∷ [])))
    × (length (enqueue_runq_from_waitq board 4).run_queue ≡ 2)
    × All (λ a. sched (enqueue_runq_from_waitq board 4).threads a ≡ reticked board 9 a) (3 ∷ [])
enqueue_runq_from_waitq-IsOrdered_example = enqueue_runq_from_waitq-IsOrdered board 4 refl (tt, tt)

pop_expired_wait_thread-IsExpiry_example : IsExpiry board 100 (pop_expired_wait_thread board 100)
pop_expired_wait_thread-IsExpiry_example = pop_expired_wait_thread-IsExpiry board 100 (tt, tt)

board-pops : pop_expired_wait_thread board 90 ≡ some (4, record board { wait_queue = [] })
unfolding pop_expired_wait_thread
board-pops = refl

board-keeps : pop_expired_wait_thread board 80 ≡ none
unfolding pop_expired_wait_thread
board-keeps = refl

insert_wait_thread_lem_example :
    Returns
      (λ r.
        IsSorted (cmp_wait r.threads) r.wait_queue
        × ((a : Ptr)
            → has a r.wait_queue
              ≡ ((a == 2 && not (wake_at board 2 == u64_max)) || has a board.wait_queue))
        × (r.suspended
            ≡ (if wake_at board 2 == u64_max then board.suspended ++ (2 ∷ []) else board.suspended))
        × (state r 2 ≡ (if wake_at board 2 == u64_max then suspended else waiting)))
      (insert_wait_thread board 2)
insert_wait_thread_lem_example = insert_wait_thread_lem board 2 refl refl (tt, tt)

remove_wait_thread-insert_wait_thread_example :
    Returns
      (λ r. (r.wait_queue ≡ board.wait_queue) × (r.suspended ≡ board.suspended))
      (insert_wait_thread board 2 >>= λ r. remove_wait_thread r 2)
remove_wait_thread-insert_wait_thread_example =
    remove_wait_thread-insert_wait_thread board 2 refl refl refl

cmp_wait-IsStrict_example : IsStrict (cmp_wait threads)
cmp_wait-IsStrict_example = cmp_wait-IsStrict threads

cfs_vruntime_delta-bounds_example :
    (cfs_vruntime_delta 100 3 8 ≡ 37) × (cfs_vruntime_delta 100 3 8 ≤ 100)
cfs_vruntime_delta-bounds_example =
    cfs_vruntime_delta-bounds 100 3 8 (omega arith) (omega arith) (omega arith) (omega arith)

stack-valid : validate_stack (record { base = some 4096; words = 64 }) ≡ ok tt
unfolding validate_stack
stack-valid = refl

abbrev initial : ℕ → InitialThreadContext
initial top = record { sp = top; exc_return = 0 }

spawn_thread-queued_example :
    Returns
      (λ r.
        (r.1 ≡ 6)
        × IsOrdered r.0
        × (6 ∈ r.0.run_queue)
        × (length r.0.run_queue ≡ 2)
        × (r.0.priority_sum ≡ 10))
      (spawn_thread initial board
        (some 6)
        (record { base = some 4096; words = 64 })
        "new"
        (cfs_args 4))
spawn_thread-queued_example =
    spawn_thread-queued initial board 6 (record { base = some 4096; words = 64 }) "new" 4
      (omega arith) stack-valid refl (tt, tt)

tag : from_wait_event 1836414053 ≡ some mutex
unfolding from_wait_event
tag = refl
