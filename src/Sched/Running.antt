-- ===== src/Sched/Running.antt =====
-- The running thread of src/sched.rs: what a switch does to it.
use rtsched.Base.{
  ◌≡◌, ◌∙◌, refl, Ptr, Bool, true, false, not, ◌&&◌, ◌||◌, Option, none, some, ◌==◌, arith, inl,
  inr, Bool-cases, is_some, ltb,
}
use rtsched.Thread.{ready, is_blocked, is_cfs}
use rtsched.Kernel.{Kernel}
use rtsched.Kernel.Access.{state, kind, record_context_switch, is_cfs_ktimer, set_thread_state}
use rtsched.Message.{is_running}
use rtsched.RunQueue.{enqueue, sched}
use rtsched.Sched.{
  preempt_cfs, switch_to_cfs_thread, switch_to_idle_thread, run_thread, ready_outgoing,
}

-- Of all the threads, only `p` is in the running state.
abbrev pub OnlyRuns : Kernel → Ptr → Type 0
OnlyRuns k p = (q : Ptr) → is_running (state k q) ≡ (q == p)

-- None but `c` is in the running state.
abbrev pub NoOtherRuns : Kernel → Ptr → Type 0
NoOtherRuns k c = (q : Ptr) → (is_running (state k q) && not (q == c)) ≡ false

-- The current thread exists and runs, alone.
abbrev pub HasRunning : Kernel → Type 0
HasRunning k = (p : Ptr) × (k.current_thread_ctx ≡ some p) × OnlyRuns k p

-- The selected timer is the CFS timer, or has a thread.
abbrev pub has_next_thread : Kernel → Bool
has_next_thread k = elim k.next_ktimer [
  | none ↦ true
  | some e ↦ is_cfs_ktimer k e || is_some (k.rt_ktimers e).thread_ctx
]

-- What `schedule` finds: a current thread `c` that runs or has just blocked, no other one running,
-- an idle thread, and a thread for the selected RT timer.
pub record IsScheduling (k : Kernel) (c i : Ptr) : Type 0 where
  pub current : k.current_thread_ctx ≡ some c
  pub alive : (is_running (state k c) || is_blocked (state k c)) ≡ true
  pub alone : NoOtherRuns k c
  pub idle : k.idle_thread_ctx ≡ some i
  pub linked : has_next_thread k ≡ true

pub record_context_switch-same :
    (k : Kernel) (from to : Option Ptr)
    → ((record_context_switch k from to).threads ≡ k.threads)
      × ((record_context_switch k from to).current_thread_ctx ≡ k.current_thread_ctx)
      × ((record_context_switch k from to).idle_thread_ctx ≡ k.idle_thread_ctx)
unfolding record_context_switch
record_context_switch-same k from to = ground arith

-- Making `p` run where no other thread does, and marking it current.
pub run_thread-HasRunning :
    (k : Kernel) (p : Ptr) (cfs : Bool) → NoOtherRuns k p → HasRunning (run_thread k p cfs)
run_thread-HasRunning k p cfs h = (p, refl, λ q. ground (arith, h q))

pub ready_outgoing-NoOtherRuns :
    (k : Kernel) (c p : Ptr)
    → k.current_thread_ctx ≡ some c
    → NoOtherRuns k c
    → NoOtherRuns (ready_outgoing k p) p
ready_outgoing-NoOtherRuns k c p e h q = ground (arith, h q)

pub switch_to_cfs_thread-HasRunning :
    (k : Kernel) (c p : Ptr)
    → k.current_thread_ctx ≡ some c
    → NoOtherRuns k c
    → HasRunning (switch_to_cfs_thread k p)
unfolding switch_to_cfs_thread
switch_to_cfs_thread-HasRunning k c p e h =
    let k' = record_context_switch k k.current_thread_ctx (some p) in
    let same = record_context_switch-same k k.current_thread_ctx (some p) in
    run_thread-HasRunning (ready_outgoing k' p) p true
      (ready_outgoing-NoOtherRuns k' c p (same.1 ∙ e) λ q. rw same.0 (h q))

pub switch_to_idle_thread-HasRunning :
    (k : Kernel) (c i : Ptr)
    → k.current_thread_ctx ≡ some c
    → k.idle_thread_ctx ≡ some i
    → NoOtherRuns k c
    → HasRunning (switch_to_idle_thread k)
unfolding switch_to_idle_thread
switch_to_idle_thread-HasRunning k c i e f h =
    rw (f, switch_to_idle_thread)
      (let k' = record_context_switch k k.current_thread_ctx (some i) in
        let same = record_context_switch-same k k.current_thread_ctx (some i) in
        let r = ready_outgoing k' i in
        run_thread-HasRunning r i (is_cfs (kind r i))
          (ready_outgoing-NoOtherRuns k' c i (same.1 ∙ e) λ q. rw same.0 (h q)))

pub preempt_cfs-HasRunning :
    (k : Kernel) (c p : Ptr)
    → k.current_thread_ctx ≡ some c
    → OnlyRuns k c
    → HasRunning (preempt_cfs k c p)
unfolding preempt_cfs enqueue
preempt_cfs-HasRunning k c p e h =
    let k' = record_context_switch k (some c) (some p) in
    let same = record_context_switch-same k (some c) (some p) in
    elim (Bool-cases (ltb (sched k.threads p).vruntime (sched k.threads c).vruntime)) [
      | inl b ↦
          rw (b, preempt_cfs)
            (run_thread-HasRunning (enqueue (set_thread_state k' c ready) c) p true
              λ q. rw same.0 (ground (arith, h q)))
      | inr b ↦ rw (b, preempt_cfs) (c, e, h)
    ]

-- A current thread that runs is the only one.
pub only : (k : Kernel) (c : Ptr) → is_running (state k c) ≡ true → NoOtherRuns k c → OnlyRuns k c
only k c r h q = ground (arith, h q)
