-- ===== src/Sched/Next.antt =====
-- `schedule` of src/sched.rs, branch by branch: which thread runs afterwards.
use rtsched.Base.{
  ℕ, ◌≡◌, Ptr, false, not, ◌&&◌, ◌||◌, none, some, List, [], ◌∷◌, ◌==◌, arith, inl, inr, Bool-cases,
  Option-cases, if◌then◌else◌, if-of,
}
use rtsched.Thread.{ready, is_blocked, SchedEntity}
use rtsched.Kernel.{Kernel, done, stopped, null_pointer, Returns, Returns->>=}
use rtsched.Kernel.Access.{
  state, ktimer, record_context_switch, is_cfs_ktimer, set_thread_state, set_sched_entity,
}
use rtsched.Message.{is_running}
use rtsched.RunQueue.{enqueue, sched}
use rtsched.Dispatch.{
  next_ktimer_reload, program_next_scheduler_timer, elapsed_ticks_since_last_interrupt,
}
use rtsched.Sched.{
  schedule, schedule_cfs, schedule_rt, schedule_cfs_next, preempt_cfs, switch_to_rt,
  switch_to_cfs_thread, requeue_current_cfs_thread_before_idle,
  switch_to_idle_thread_with_current_requeued, charge_current, is_idle_thread, run_thread, charged,
}
use rtsched.Sched.Running.{
  NoOtherRuns, HasRunning, IsScheduling, record_context_switch-same, run_thread-HasRunning,
  switch_to_cfs_thread-HasRunning, switch_to_idle_thread-HasRunning, preempt_cfs-HasRunning, only,
}

schedule_cfs_next-HasRunning :
    (k : Kernel) (c i p : Ptr) → IsScheduling k c i → HasRunning (schedule_cfs_next k c p)
unfolding schedule_cfs_next
schedule_cfs_next-HasRunning k c i p s =
    if-of HasRunning k.current_thread_is_cfs
      (if is_blocked (state k c) || is_idle_thread k c
        then switch_to_cfs_thread k p
        else preempt_cfs k c p)
      (switch_to_cfs_thread (if is_blocked (state k c) then k else set_thread_state k c ready) p)
      (λ _.
        if-of HasRunning (is_blocked (state k c) || is_idle_thread k c) (switch_to_cfs_thread k p)
          (preempt_cfs k c p) (λ _. switch_to_cfs_thread-HasRunning k c p s.current s.alone)
          (λ b.
            preempt_cfs-HasRunning k c p s.current (only k c (ground (arith, s.alive)) s.alone)))
      (λ _.
        if-of (λ r. HasRunning (switch_to_cfs_thread r p)) (is_blocked (state k c)) k
          (set_thread_state k c ready)
          (λ _. switch_to_cfs_thread-HasRunning k c p s.current s.alone)
          (λ _.
            switch_to_cfs_thread-HasRunning (set_thread_state k c ready) c p s.current
              λ q. ground (arith, s.alone q)))

requeued :
    (k : Kernel) (c i : Ptr)
    → IsScheduling k c i
    → HasRunning (switch_to_idle_thread_with_current_requeued k)
unfolding switch_to_idle_thread_with_current_requeued requeue_current_cfs_thread_before_idle enqueue
requeued k c i s =
    elim (Bool-cases
      (not k.current_thread_is_cfs || is_idle_thread k c || is_blocked (state k c))) [
        | inl b ↦
            rw (s.idle, requeue_current_cfs_thread_before_idle)
              (rw s.current
                (rw b (switch_to_idle_thread-HasRunning k c i s.current s.idle s.alone)))
        | inr b ↦
            rw (s.idle, requeue_current_cfs_thread_before_idle)
              (rw s.current (
                rw b (
                  switch_to_idle_thread-HasRunning (enqueue (set_thread_state k c ready) c) c i
                    s.current s.idle λ q. ground (arith, s.alone q))))
      ]

switched :
    (k : Kernel) (c p : Ptr)
    → NoOtherRuns k p
    → HasRunning (run_thread (record_context_switch k (some c) (some p)) p false)
switched k c p h =
    let same = record_context_switch-same k (some c) (some p) in
    run_thread-HasRunning (record_context_switch k (some c) (some p)) p false λ q. rw same.0 (h q)

switch_to_rt-HasRunning :
    (k : Kernel) (c p : Ptr) → NoOtherRuns k c → HasRunning (switch_to_rt k c p)
unfolding switch_to_rt enqueue
switch_to_rt-HasRunning k c p h =
    if-of (λ r. HasRunning (run_thread (record_context_switch r (some c) (some p)) p false))
      (is_blocked (state k c)) k
      (let r = set_thread_state k c ready in
        if k.current_thread_is_cfs && not (is_idle_thread k c) then enqueue r c else r)
      (λ b. switched k c p λ q. ground (arith, h q))
      (λ b.
        if-of (λ r. HasRunning (run_thread (record_context_switch r (some c) (some p)) p false))
          (k.current_thread_is_cfs && not (is_idle_thread k c))
          (enqueue (set_thread_state k c ready) c) (set_thread_state k c ready)
          (λ _. switched (enqueue (set_thread_state k c ready) c) c p λ q. ground (arith, h q))
          (λ _. switched (set_thread_state k c ready) c p λ q. ground (arith, h q)))

program_next_scheduler_timer-HasRunning :
    (k : Kernel) → HasRunning k → HasRunning (program_next_scheduler_timer k).0
unfolding program_next_scheduler_timer
program_next_scheduler_timer-HasRunning k h = elim (Option-cases (next_ktimer_reload k)) [
  | inl e ↦ rw (e, program_next_scheduler_timer) h
  | inr (n, e) ↦ rw (e, program_next_scheduler_timer) h
]

-- With the CFS timer due: the left-most thread competes, or the idle thread takes over.
schedule_next :
    (k : Kernel) (c i : Ptr) (ready_threads : List Ptr)
    → IsScheduling k c i
    → Returns HasRunning (elim ready_threads [
      | [] ↦ done (switch_to_idle_thread_with_current_requeued k)
      | next ∷ rest ↦ elim k.current_thread_ctx [
        | none ↦ stopped null_pointer
        | some c' ↦ done (schedule_cfs_next (record k { run_queue = rest }) c' next)
      ]
    ])
schedule_next k c i [] s = requeued k c i s
schedule_next k c i (next ∷ rest) s = rw s.current (
    schedule_cfs_next-HasRunning (record k { run_queue = rest }) c i next
      (record {
        current = s.current;
        alive = s.alive;
        alone = s.alone;
        idle = s.idle;
        linked = s.linked;
      }))

schedule_cfs-HasRunning :
    (k : Kernel) (c i e : Ptr) → IsScheduling k c i → Returns HasRunning (schedule_cfs k e)
unfolding schedule_cfs
schedule_cfs-HasRunning k c i e s = elim (Bool-cases (ktimer k e).active) [
  | inl b ↦ rw (b, schedule_cfs) (schedule_next k c i k.run_queue s)
  | inr b ↦ rw (b, schedule_cfs) (requeued k c i s)
]

schedule_rt-HasRunning :
    (k : Kernel) (c i e t : Ptr)
    → IsScheduling k c i
    → (k.rt_ktimers e).thread_ctx ≡ some t
    → Returns HasRunning (schedule_rt k e)
unfolding schedule_rt
schedule_rt-HasRunning k c i e t s linked =
    rw (linked, schedule_rt)
      (rw s.current
        (program_next_scheduler_timer-HasRunning _ (switch_to_rt-HasRunning k c t s.alone)))

with_entity :
    (k : Kernel) (c i : Ptr) (e : SchedEntity)
    → IsScheduling k c i
    → IsScheduling (set_sched_entity k c e) c i
with_entity k c i e s = record {
  current = s.current;
  alive = ground (arith, s.alive);
  alone = λ q. ground (arith, s.alone q);
  idle = s.idle;
  linked = s.linked;
}

charge_current-IsScheduling :
    (k : Kernel) (c i : Ptr) (n : ℕ)
    → IsScheduling k c i
    → Returns (λ r. IsScheduling r c i) (charge_current k n)
unfolding charge_current
charge_current-IsScheduling k c i n s =
    if-of (λ r. Returns (λ x. IsScheduling x c i) r) k.current_thread_is_cfs
      (elim k.current_thread_ctx [
        | none ↦ stopped null_pointer
        | some a ↦ done (
            if is_running (state k a) && not (is_idle_thread k a) && not (k.priority_sum == 0)
            then set_sched_entity k a (charged n k.priority_sum (sched k.threads a))
            else k)
      ])
      (done k)
      (λ _. rw s.current (
        if-of (λ r. IsScheduling r c i)
          (is_running (state k c) && not (is_idle_thread k c) && not (k.priority_sum == 0))
          (set_sched_entity k c (charged n k.priority_sum (sched k.threads c))) k
          (λ _. with_entity k c i (charged n k.priority_sum (sched k.threads c)) s) (λ _. s)))
      (λ _. s)

-- With a current thread that runs or has blocked and no other thread running, an idle thread, and a
-- thread for the selected timer if it is an RT timer, `schedule` returns, and then the current thread
-- runs and no other one does.
pub schedule-HasRunning :
    (k : Kernel) (c i : Ptr) → IsScheduling k c i → Returns HasRunning (schedule k)
unfolding schedule
schedule-HasRunning k c i s =
    Returns->>= (λ r. IsScheduling r c i) HasRunning
      (charge_current k (elapsed_ticks_since_last_interrupt k)) _
      (charge_current-IsScheduling k c i (elapsed_ticks_since_last_interrupt k) s)
      λ r t. elim (Option-cases r.next_ktimer) [
        | inl e ↦ rw e (program_next_scheduler_timer-HasRunning _ (requeued r c i t))
        | inr (e, next) ↦ elim (Bool-cases (is_cfs_ktimer r e)) [
          | inl b ↦ rw next (
              rw b (
                Returns->>= HasRunning HasRunning (schedule_cfs r e) _
                  (schedule_cfs-HasRunning r c i e t) program_next_scheduler_timer-HasRunning))
          | inr b ↦ elim (Option-cases (r.rt_ktimers e).thread_ctx) [
            | inl no_thread ↦ absurd (ground (arith, t.linked))
            | inr (thread, linked) ↦ rw next (rw b (schedule_rt-HasRunning r c i e thread t linked))
          ]
        ]
      ]
