-- ===== src/Kernel/Access.antt =====
-- Reads and writes of the globals' structs, and the trace points of src/diagnostics/trace.rs.
use rtsched.Base.{
  ℕ, ◌/◌, Ptr, Bool, true, Option, none, some, ◌==◌, if◌then◌else◌, update, same_ptr,
}
use rtsched.Thread.{
  Thread, ThreadState, ThreadKind, idle, set_state, WaitEntity, SyncEntity, SchedEntity, is_cfs,
}
use rtsched.KTimer.{KTimerEntity}
use rtsched.KTimer.Queue.{KTimerQueue, set_entity}
use rtsched.Kernel.{Kernel, Result, done, stopped, idle_thread_has_no_entity}
use rtsched.Trace.{
  TraceThread, context_switch, deadline_missed, wakeup, yielded, Trace, increment, emit,
}

abbrev pub modify_thread : Kernel → Ptr → (Thread → Thread) → Kernel
modify_thread k p f = record k { threads = update k.threads p (f (k.threads p)) }

abbrev pub set_thread_state : Kernel → Ptr → ThreadState → Kernel
set_thread_state k p s = modify_thread k p (set_state s)

abbrev pub set_wait_entity : Kernel → Ptr → WaitEntity → Kernel
set_wait_entity k p e = modify_thread k p (λ t. record t { wait_entity = e })

abbrev pub set_sync_entity : Kernel → Ptr → SyncEntity → Kernel
set_sync_entity k p e = modify_thread k p (λ t. record t { sync_entity = e })

abbrev pub set_sched_entity : Kernel → Ptr → SchedEntity → Kernel
set_sched_entity k p e = modify_thread k p (λ t. record t { sched_entity = e })

abbrev pub set_runtime : Kernel → Ptr → ℕ → Kernel
set_runtime k p r = modify_thread k p (λ t. record t { runtime = r })

abbrev pub state : Kernel → Ptr → ThreadState
state k p = (k.threads p).ctx.state

abbrev pub kind : Kernel → Ptr → ThreadKind
kind k p = (k.threads p).ctx.kind

abbrev pub ktimer : Kernel → Ptr → KTimerEntity
ktimer k p = k.ktimer_queue.entities p

abbrev pub now_ticks : Kernel → ℕ
now_ticks k = k.ktimer_queue.now_ticks

abbrev pub set_queue : Kernel → KTimerQueue → Kernel
set_queue k q = record k { ktimer_queue = q }

abbrev pub set_ktimer : Kernel → Ptr → KTimerEntity → Kernel
set_ktimer k p e = set_queue k (set_entity k.ktimer_queue p e)

abbrev pub is_cfs_ktimer : Kernel → Ptr → Bool
is_cfs_ktimer k p = p == k.cfs_ktimer

abbrev pub is_wait_ktimer : Kernel → Ptr → Bool
is_wait_ktimer k p = p == k.wait_ktimer

-- `ticks_per_ms` of src/clock.rs
abbrev pub ticks_per_ms : Kernel → ℕ
ticks_per_ms k = k.sys_clk_freq / 1000

-- `request_context_switch`: PendSV stays pending until it is taken.
abbrev pub request_context_switch : Kernel → Kernel
request_context_switch k = record k { switch_requested = true }

-- `wait_entity` of src/waitq.rs and `sync_entity` of src/thread.rs: an idle thread has neither.
unfoldable pub check_entity : Kernel → Ptr → Result (Unit {0})
check_entity k p = elim (kind k p) [ idle ↦ stopped idle_thread_has_no_entity | _ ↦ done tt ]

abbrev pub from_ptr : Kernel → Option Ptr → Option TraceThread
from_ptr k none = none
from_ptr k (some p) =
    let c = (k.threads p).ctx in some (record { id = c.id; name = c.name; is_cfs = is_cfs c.kind })

-- What a trace point of one event kind does to the trace.
abbrev pub counted_switch : Option TraceThread → TraceThread → Trace → Trace
counted_switch from to t =
    let c = t.counters in
    emit (context_switch from to)
      (record t { counters = record c { context_switches = increment c.context_switches } })

abbrev pub counted_miss : TraceThread → ℕ → ℕ → Trace → Trace
counted_miss th runtime deadline t =
    let c = t.counters in
    emit (deadline_missed th runtime deadline)
      (record t { counters = record c { deadline_misses = increment c.deadline_misses } })

abbrev pub counted_wakeup : TraceThread → Trace → Trace
counted_wakeup th t =
    let c = t.counters in
    emit (wakeup th) (record t { counters = record c { wakeups = increment c.wakeups } })

abbrev pub counted_yield : TraceThread → ℕ → Trace → Trace
counted_yield th elapsed t =
    let c = t.counters in
    emit (yielded th elapsed) (record t { counters = record c { yields = increment c.yields } })

unfoldable pub record_context_switch : Kernel → Option Ptr → Option Ptr → Kernel
unfolding increment
record_context_switch k from to = if same_ptr from to then k else elim (from_ptr k to) [
  | none ↦ k
  | some th ↦ record k { trace = counted_switch (from_ptr k from) th k.trace }
]

unfoldable pub record_deadline_miss : Kernel → Option Ptr → ℕ → ℕ → Kernel
unfolding increment
record_deadline_miss k p runtime deadline = elim (from_ptr k p) [
  | none ↦ k
  | some th ↦ record k { trace = counted_miss th runtime deadline k.trace }
]

unfoldable pub record_wakeup : Kernel → Option Ptr → Kernel
unfolding increment
record_wakeup k p = elim (from_ptr k p) [
  | none ↦ k
  | some th ↦ record k { trace = counted_wakeup th k.trace }
]

unfoldable pub record_yield : Kernel → Option Ptr → ℕ → Kernel
unfolding increment
record_yield k p elapsed = elim (from_ptr k p) [
  | none ↦ k
  | some th ↦ record k { trace = counted_yield th elapsed k.trace }
]
