-- ===== src/Sched.antt =====
-- src/sched.rs: which thread runs next.
pub mod Running
pub mod Next
pub mod Contexts
use rtsched.Base.{
  ℕ, ◌+◌, ◌%◌, ◌^◌, Ptr, Bool, true, false, not, none, some, [], ◌∷◌, ◌==◌, ◌&&◌, ◌||◌, ltb,
  if◌then◌else◌, same_ptr,
}
use rtsched.Thread.{ready, running, is_blocked, is_cfs, is_idle, SchedEntity}
use rtsched.KTimer.Queue
use rtsched.Kernel.{Kernel, Result, done, stopped, ◌>>=◌, null_pointer, thread_is_not_idle}
use rtsched.Kernel.Access.{
  state, kind, ktimer, set_ktimer, set_thread_state, set_sched_entity, is_cfs_ktimer,
  record_context_switch,
}
use rtsched.RunQueue.{cfs_vruntime_delta, sched, enqueue}
use rtsched.Timers.{enqueue_active, refresh_next_ktimer}
use rtsched.Dispatch.{elapsed_ticks_since_last_interrupt, program_next_scheduler_timer}
use rtsched.Message.{is_running}

unfoldable pub register_idle_thread : Kernel → Ptr → Result Kernel
register_idle_thread k p =
    if is_idle (kind k p)
    then done (record k { idle_thread_ctx = some p })
    else stopped thread_is_not_idle

-- `init_cfs`, for the CFS timer built anew with its slice as first expiry.
unfoldable pub init_cfs : Kernel → ℕ → ℕ → Result Kernel
init_cfs k period_ticks exec_ticks =
    let fresh = record k { run_queue = []; priority_sum = 0; idle_thread_ctx = none } in
    let timer = set_ktimer fresh k.cfs_ktimer (record {
      expire_at = exec_ticks;
      active = true;
      timing = record {
        period_ticks = period_ticks;
        relative_deadline_ticks = exec_ticks;
        budget_ticks = exec_ticks;
      };
    }) in
    refresh_next_ktimer (enqueue_active timer k.cfs_ktimer)

abbrev pub is_idle_thread : Kernel → Ptr → Bool
is_idle_thread k p = same_ptr (some p) k.idle_thread_ctx

-- An outgoing thread that is not blocked, and is not the incoming one, becomes ready.
abbrev pub ready_outgoing : Kernel → Ptr → Kernel
ready_outgoing k incoming = elim k.current_thread_ctx [
  | none ↦ k
  | some c ↦
      if not (c == incoming) && not (is_blocked (state k c)) then set_thread_state k c ready else k
]

-- The incoming thread runs.
abbrev pub run_thread : Kernel → Ptr → Bool → Kernel
run_thread k p cfs = record (set_thread_state k p running) {
  current_thread_ctx = some p;
  current_thread_is_cfs = cfs;
}

unfoldable pub switch_to_cfs_thread : Kernel → Ptr → Kernel
switch_to_cfs_thread k p =
    let k' = record_context_switch k k.current_thread_ctx (some p) in
    run_thread (ready_outgoing k' p) p true

unfoldable pub switch_to_idle_thread : Kernel → Kernel
switch_to_idle_thread k = elim k.idle_thread_ctx [
  | none ↦ k
  | some p ↦
      let k' = ready_outgoing (record_context_switch k k.current_thread_ctx (some p)) p in
      run_thread k' p (is_cfs (kind k' p))
]

-- A current CFS thread that could go on is put back into the run queue.
unfoldable pub requeue_current_cfs_thread_before_idle : Kernel → Kernel
requeue_current_cfs_thread_before_idle k = elim k.idle_thread_ctx [
  | none ↦ k
  | some i ↦ elim k.current_thread_ctx [
    | none ↦ k
    | some c ↦
        if not k.current_thread_is_cfs || is_idle_thread k c || is_blocked (state k c)
        then k
        else enqueue (set_thread_state k c ready) c
  ]
]

unfoldable pub switch_to_idle_thread_with_current_requeued : Kernel → Kernel
switch_to_idle_thread_with_current_requeued k =
    switch_to_idle_thread (requeue_current_cfs_thread_before_idle k)

-- The elapsed time is charged to a running CFS thread, weighted by its priority.
abbrev pub charged : ℕ → ℕ → SchedEntity → SchedEntity
charged elapsed sum s = record s {
  vruntime = (s.vruntime + cfs_vruntime_delta elapsed s.priority sum) % 2 ^ 64;
  sched_tick_cnt = (s.sched_tick_cnt + elapsed) % 2 ^ 64;
}

unfoldable pub charge_current : Kernel → ℕ → Result Kernel
charge_current k elapsed =
    if k.current_thread_is_cfs
    then elim k.current_thread_ctx [
      | none ↦ stopped null_pointer
      | some c ↦ done (
          if is_running (state k c) && not (is_idle_thread k c) && not (k.priority_sum == 0)
          then set_sched_entity k c (charged elapsed k.priority_sum (sched k.threads c))
          else k)
    ]
    else done k

-- The CFS timer is due and `next` has left the run queue: it competes with the current thread.
unfoldable pub preempt_cfs : Kernel → Ptr → Ptr → Kernel
preempt_cfs k c next =
    if ltb (sched k.threads next).vruntime (sched k.threads c).vruntime
    then run_thread
        (enqueue (set_thread_state (record_context_switch k (some c) (some next)) c ready) c) next
        true
    else enqueue k next

unfoldable pub schedule_cfs_next : Kernel → Ptr → Ptr → Kernel
schedule_cfs_next k c next =
    if k.current_thread_is_cfs
    then if is_blocked (state k c) || is_idle_thread k c
      then switch_to_cfs_thread k next
      else preempt_cfs k c next
    else switch_to_cfs_thread (if is_blocked (state k c) then k else set_thread_state k c ready)
        next

unfoldable pub schedule_cfs : Kernel → Ptr → Result Kernel
schedule_cfs k e =
    if not (ktimer k e).active
    then done (switch_to_idle_thread_with_current_requeued k)
    else elim k.run_queue [
      | [] ↦ done (switch_to_idle_thread_with_current_requeued k)
      | next ∷ rest ↦ elim k.current_thread_ctx [
        | none ↦ stopped null_pointer
        | some c ↦ done (schedule_cfs_next (record k { run_queue = rest }) c next)
      ]
    ]

unfoldable pub switch_to_rt : Kernel → Ptr → Ptr → Kernel
switch_to_rt k c next =
    let r = set_thread_state k c ready in
    let k' =
      if is_blocked (state k c)
      then k
      else if k.current_thread_is_cfs && not (is_idle_thread k c)
      then enqueue r c
      else r in
    run_thread (record_context_switch k' (some c) (some next)) next false

-- An RT timer without a thread ends the call before the timer is programmed.
unfoldable pub schedule_rt : Kernel → Ptr → Result Kernel
schedule_rt k e = elim (k.rt_ktimers e).thread_ctx [
  | none ↦ done k
  | some next ↦ elim k.current_thread_ctx [
    | none ↦ stopped null_pointer
    | some c ↦ done ((program_next_scheduler_timer (switch_to_rt k c next)).0)
  ]
]

unfoldable pub schedule : Kernel → Result Kernel
schedule k = do
  k' ← charge_current k (elapsed_ticks_since_last_interrupt k)
  elim k'.next_ktimer [
    | none ↦
        done ((program_next_scheduler_timer (switch_to_idle_thread_with_current_requeued k')).0)
    | some e ↦
        if is_cfs_ktimer k' e
        then (schedule_cfs k' e >>= λ r. done ((program_next_scheduler_timer r).0))
        else schedule_rt k' e
  ]
