-- ===== src/Lib.antt =====
-- rtsched: a preemptive scheduler for Cortex-M boards with three thread classes. RT threads are
-- scheduled by earliest deadline, CFS threads share a timer and are ordered by virtual runtime, and an
-- idle thread runs when nothing else can. Each RT thread, the CFS class and the wait queue own a timer;
-- the timer queue holds them in an active and an inactive tree, and the first active timer selects the
-- class that runs next. A tick dispatches expired timers and requests a context switch, which calls
-- `schedule`. Semaphores, the mutex and the message queue block threads through the wait queue.
--
-- Which file models what:
--   Tree.antt           the contract of the intrusive index: the ascending sequence of addresses that
--                       each operation of src/rbtree.rs gives. The clients are stated over it.
--   RbTree.antt         src/rbtree.rs on its links: nodes in a store by address, rotations and reads;
--                       RbTree/Insert.antt and RbTree/Remove.antt are the writes. RbTree/Shape.antt says
--                       what tree the links stand for, RbTree/Balance.antt what its colours promise.
--   Thread.antt         states, kinds and control blocks of src/thread.rs; Thread/States.antt.
--   SyncType.antt       the wait-event types of src/sync.rs and their tags.
--   KTimer.antt         timer entities and reload arithmetic of src/ktimer.rs; KTimer/Queue.antt is
--                       `KTimerQueue`, with its invariant in KTimer/Queue/Inv.antt.
--   Trace.antt          counters and events of src/diagnostics/trace.rs; Trace/Timing.antt is the cycle
--                       timing from SysTick to PendSV.
--   Kernel.antt         the record of all globals, the result of a call, reads and writes.
--   WaitQueue.antt      src/waitq.rs, where the suspended list is the sequence of its members;
--                       WaitQueue/Suspended.antt is that list on its pointers.
--   RunQueue.antt       src/runq.rs.
--   Timers.antt, Dispatch.antt, Blocking.antt, Deadline.antt
--                       the functions of src/ktimer.rs that act on the whole scheduler.
--   Current.antt        the current thread and the runtime of an RT thread, in src/thread.rs.
--   Yield.antt          `yieldyi` and `msleepyi` of src/thread.rs.
--   Sync.antt           waiters of src/sync.rs; Sync/Semaphore.antt and Sync/Mutex.antt.
--   Ring.antt, Message.antt   src/message.rs.
--   Sched.antt          src/sched.rs, `schedule` split at its branches.
--   Spawn.antt          thread creation in src/thread.rs.
--   Platform/Frame.antt the first stack frame that src/arch/cm/platform.rs and src/arch/host/platform.rs
--                       build; Platform/Builders.antt the thread builders of src/thread.rs on it;
--                       Platform/Cycles.antt the cycle counter.
--   Platform/Switch.antt   the handlers of src/arch/cm/ctx_switch.rs; Platform/Boot.antt the start of
--                       the scheduler in src/arch/platform.rs.
--   Diagnostics.antt    the traversals of src/diagnostics.
--   Tests/              a small board at which the theorems are applied.
--
-- A pointer is an address (a number), a nullable pointer an option. A thread and the entities embedded
-- in it share one address. The structs are a function of the address in the record of globals. A call
-- takes the globals and gives back a result: the new globals, or the reason why it does not return (a
-- panic, a dereferenced null pointer, or a loop without rounds left). A critical section is one step,
-- so interleavings are sequences of calls. Machine words are natural numbers; saturation and
-- wrap-around are written out, the latter as in a release build, and debug assertions are left out. What
-- unlinks a timer or a tree entity is called for a linked one, as the source requires: what it
-- does to the links of another one is not modelled.
--
-- Rounds of loops: `wake_wait_thread` has one round for each waiting thread and one more;
-- `earliest_queued_scheduler_expire_at` one for each queued timer and two more. The rounds of
-- `dispatch_expired` are the caller's; `send_with_wait` and `receive_with_wait` have one for each element
-- of the list that says what other threads do meanwhile.
--
-- `minimum`, `next`, `upper_bound` and the search of `insert` have one for each node and one more, the
-- fixups of the red-black tree two more. A traversal has one for each member of what it visits.
--
-- `Ensures` states what holds of a call that returns, `Returns` also that it does, and
-- `ReturnsIf` that it does if a test holds.
--
-- The processor: a store maps the address of a 32-bit word to the word, and what the handlers of
-- src/arch/cm save and restore is a record of registers. What the hardware itself stacks and unstacks
-- at an exception is not in the source; the frame that it unstacks first is. `SVCall` and `PendSV` are
-- functions on the store, the registers and the globals. The cycle timing stands by itself, and
-- `PendSV` is modelled with the feature off.
--
-- Not modelled: printed diagnostics; the selection of a port; the value that a mutex guards.
pub mod Base
pub mod Tree
pub mod RbTree
pub mod SyncType
pub mod Thread
pub mod KTimer
pub mod Trace
pub mod Platform
pub mod Kernel
pub mod WaitQueue
pub mod RunQueue
pub mod Timers
pub mod Dispatch
pub mod Blocking
pub mod Yield
pub mod Current
pub mod Deadline
pub mod Sync
pub mod Ring
pub mod Message
pub mod Sched
pub mod Spawn
pub mod Diagnostics
pub mod Tests
