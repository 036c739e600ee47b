-- ===== src/Sched/Contexts.antt =====
-- `schedule` of src/sched.rs moves no thread's saved context: that is for the port's `PendSV`.
use rtsched.Base.{
  ℕ, ◌≡◌, refl, ap, ◌∙◌, Ptr, Bool, true, false, not, ◌&&◌, ◌||◌, none, some, Option, List, [], ◌∷◌,
  arith, inl, inr, Bool-cases, Option-cases, if◌then◌else◌, if-of,
}
use rtsched.Thread.{Thread, ThreadState, SchedEntity, ready, is_blocked, is_cfs}
use rtsched.Kernel.{Kernel, done, stopped, null_pointer, Ensures, Ensures->>=, Ensures-imp}
use rtsched.Kernel.Access.{
  kind, state, ktimer, record_context_switch, is_cfs_ktimer, set_thread_state, set_sched_entity,
}
use rtsched.RunQueue.{enqueue}
use rtsched.Dispatch.{program_next_scheduler_timer, elapsed_ticks_since_last_interrupt}
use rtsched.Sched.{
  schedule, schedule_cfs, schedule_rt, schedule_cfs_next, preempt_cfs, switch_to_rt,
  switch_to_idle_thread, ready_outgoing, switch_to_cfs_thread,
  requeue_current_cfs_thread_before_idle, switch_to_idle_thread_with_current_requeued,
  charge_current, is_idle_thread, run_thread,
}
use rtsched.Sched.Running.{record_context_switch-same}

-- Where the registers of a thread are kept while it does not run.
abbrev pub place : (Ptr → Thread) → Ptr → ℕ × ℕ
place threads q = ((threads q).ctx.sp, (threads q).ctx.exc_return)

abbrev pub SameContexts : Kernel → Kernel → Type 0
SameContexts k k' = (q : Ptr) → place k'.threads q ≡ place k.threads q

state-SameContexts :
    (k : Kernel) (p : Ptr) (s : ThreadState) → SameContexts k (set_thread_state k p s)
state-SameContexts k p s q = ground arith

entity-SameContexts :
    (k : Kernel) (p : Ptr) (e : SchedEntity) → SameContexts k (set_sched_entity k p e)
entity-SameContexts k p e q = ground arith

trace-SameContexts :
    (k : Kernel) (from to : Option Ptr) → SameContexts k (record_context_switch k from to)
trace-SameContexts k from to q =
    ap (λ (f : Ptr → Thread). place f q) (record_context_switch-same k from to).0

run_thread-SameContexts : (k : Kernel) (p : Ptr) (cfs : Bool) → SameContexts k (run_thread k p cfs)
run_thread-SameContexts k p cfs q = ground arith

enqueue-SameContexts : (k : Kernel) (p : Ptr) → SameContexts k (enqueue k p)
unfolding enqueue
enqueue-SameContexts k p q = refl

ready_outgoing-SameContexts : (k : Kernel) (p : Ptr) → SameContexts k (ready_outgoing k p)
ready_outgoing-SameContexts k p q = ground arith

switch_to_cfs_thread-SameContexts :
    (k : Kernel) (p : Ptr) → SameContexts k (switch_to_cfs_thread k p)
unfolding switch_to_cfs_thread
switch_to_cfs_thread-SameContexts k p q =
    let r = record_context_switch k k.current_thread_ctx (some p) in
    run_thread-SameContexts (ready_outgoing r p) p true q
    ∙ ready_outgoing-SameContexts r p q
    ∙ trace-SameContexts k k.current_thread_ctx (some p) q

switch_to_idle_thread-SameContexts : (k : Kernel) → SameContexts k (switch_to_idle_thread k)
unfolding switch_to_idle_thread
switch_to_idle_thread-SameContexts k q = elim (Option-cases k.idle_thread_ctx) [
  | inl e ↦ rw (e, switch_to_idle_thread) refl
  | inr (p, e) ↦
      let r = record_context_switch k k.current_thread_ctx (some p) in
      rw (e, switch_to_idle_thread)
        (run_thread-SameContexts (ready_outgoing r p) p (is_cfs (kind (ready_outgoing r p) p)) q
          ∙ ready_outgoing-SameContexts r p q
          ∙ trace-SameContexts k k.current_thread_ctx (some p) q)
]

requeue-SameContexts : (k : Kernel) → SameContexts k (requeue_current_cfs_thread_before_idle k)
unfolding requeue_current_cfs_thread_before_idle enqueue
requeue-SameContexts k q = ground arith

idle-SameContexts : (k : Kernel) → SameContexts k (switch_to_idle_thread_with_current_requeued k)
unfolding switch_to_idle_thread_with_current_requeued
idle-SameContexts k q =
    switch_to_idle_thread-SameContexts (requeue_current_cfs_thread_before_idle k) q
    ∙ requeue-SameContexts k q

preempt_cfs-SameContexts : (k : Kernel) (c p : Ptr) → SameContexts k (preempt_cfs k c p)
unfolding preempt_cfs
preempt_cfs-SameContexts k c p q =
    let r = record_context_switch k (some c) (some p) in
    if-of (λ x. place x.threads q ≡ place k.threads q) _
      (run_thread (enqueue (set_thread_state r c ready) c) p true) (enqueue k p)
      (λ _.
        run_thread-SameContexts (enqueue (set_thread_state r c ready) c) p true q
        ∙ enqueue-SameContexts (set_thread_state r c ready) c q
        ∙ state-SameContexts r c ready q
        ∙ trace-SameContexts k (some c) (some p) q)
      (λ _. enqueue-SameContexts k p q)

unblocked-SameContexts :
    (k : Kernel) (c : Ptr)
    → SameContexts k (if is_blocked (state k c) then k else set_thread_state k c ready)
unblocked-SameContexts k c q = ground arith

schedule_cfs_next-SameContexts : (k : Kernel) (c p : Ptr) → SameContexts k (schedule_cfs_next k c p)
unfolding schedule_cfs_next
schedule_cfs_next-SameContexts k c p q =
    let P = λ (x : Kernel). place x.threads q ≡ place k.threads q in
    let r = if is_blocked (state k c) then k else set_thread_state k c ready in
    if-of P k.current_thread_is_cfs
      (if is_blocked (state k c) || is_idle_thread k c
        then switch_to_cfs_thread k p
        else preempt_cfs k c p)
      (switch_to_cfs_thread r p)
      (λ _.
        if-of P (is_blocked (state k c) || is_idle_thread k c) (switch_to_cfs_thread k p)
          (preempt_cfs k c p) (λ _. switch_to_cfs_thread-SameContexts k p q)
          (λ _. preempt_cfs-SameContexts k c p q))
      (λ _. switch_to_cfs_thread-SameContexts r p q ∙ unblocked-SameContexts k c q)

schedule_cfs-SameContexts : (k : Kernel) (e : Ptr) → Ensures (SameContexts k) (schedule_cfs k e)
unfolding schedule_cfs
schedule_cfs-SameContexts k e = elim (Bool-cases (ktimer k e).active) [
  | inr b ↦ rw (b, schedule_cfs) (idle-SameContexts k)
  | inl b ↦ rw (b, schedule_cfs) (next k.run_queue)
]
  where
    next :
        (xs : List Ptr)
        → Ensures (SameContexts k) (elim xs [
          | [] ↦ done (switch_to_idle_thread_with_current_requeued k)
          | p ∷ rest ↦ elim k.current_thread_ctx [
            | none ↦ stopped null_pointer
            | some c ↦ done (schedule_cfs_next (record k { run_queue = rest }) c p)
          ]
        ])
    next [] = idle-SameContexts k
    next (p ∷ rest) = elim (Option-cases k.current_thread_ctx) [
      | inl e ↦ rw e tt
      | inr (c, e) ↦ rw e (schedule_cfs_next-SameContexts (record k { run_queue = rest }) c p)
    ]

switch_to_rt-SameContexts : (k : Kernel) (c p : Ptr) → SameContexts k (switch_to_rt k c p)
unfolding switch_to_rt enqueue
switch_to_rt-SameContexts k c p q =
    let r = set_thread_state k c ready in
    let k' =
      if is_blocked (state k c)
      then k
      else if k.current_thread_is_cfs && not (is_idle_thread k c)
      then enqueue r c
      else r in
    let kept : place k'.threads q ≡ place k.threads q = ground arith in
    run_thread-SameContexts (record_context_switch k' (some c) (some p)) p false q
    ∙ trace-SameContexts k' (some c) (some p) q
    ∙ kept

program-SameContexts : (k : Kernel) → SameContexts k (program_next_scheduler_timer k).0
unfolding program_next_scheduler_timer
program-SameContexts k q = ground arith

schedule_rt-SameContexts : (k : Kernel) (e : Ptr) → Ensures (SameContexts k) (schedule_rt k e)
unfolding schedule_rt
schedule_rt-SameContexts k e = elim (Option-cases (k.rt_ktimers e).thread_ctx) [
  | inl no_thread ↦ rw (no_thread, schedule_rt) λ q. refl
  | inr (p, linked) ↦ elim (Option-cases k.current_thread_ctx) [
    | inl none_runs ↦ rw (linked, schedule_rt) (rw none_runs tt)
    | inr (c, current) ↦
        rw (linked, schedule_rt)
          (rw current
            λ q. program-SameContexts (switch_to_rt k c p) q ∙ switch_to_rt-SameContexts k c p q)
  ]
]

charge_current-SameContexts : (k : Kernel) (n : ℕ) → Ensures (SameContexts k) (charge_current k n)
unfolding charge_current
charge_current-SameContexts k n = elim (Bool-cases k.current_thread_is_cfs) [
  | inr b ↦ rw (b, charge_current) λ q. refl
  | inl b ↦ elim (Option-cases k.current_thread_ctx) [
    | inl e ↦ rw (b, charge_current) (rw e tt)
    | inr (c, e) ↦ rw (b, charge_current) (rw e λ q. ground arith)
  ]
]

-- When `schedule` returns, each thread's saved stack pointer and `EXC_RETURN` are as before.
pub schedule-SameContexts : (k : Kernel) → Ensures (SameContexts k) (schedule k)
unfolding schedule
schedule-SameContexts k =
    Ensures->>= (SameContexts k) (SameContexts k)
      (charge_current k (elapsed_ticks_since_last_interrupt k)) _
      (charge_current-SameContexts k (elapsed_ticks_since_last_interrupt k))
      λ r t. elim (Option-cases r.next_ktimer) [
        | inl e ↦
            let s = switch_to_idle_thread_with_current_requeued r in
            rw e λ q. program-SameContexts s q ∙ idle-SameContexts r q ∙ t q
        | inr (e, next) ↦ elim (Bool-cases (is_cfs_ktimer r e)) [
          | inl b ↦ rw next (
              rw b (
                Ensures->>= (SameContexts r) (SameContexts k) (schedule_cfs r e) _
                  (schedule_cfs-SameContexts r e) λ s u q. program-SameContexts s q ∙ u q ∙ t q))
          | inr b ↦ rw next (
              rw b
                (Ensures-imp (λ s u q. u q ∙ t q) (schedule_rt r e) (schedule_rt-SameContexts r e)))
        ]
      ]
