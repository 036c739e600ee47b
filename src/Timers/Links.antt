-- ===== src/Timers/Links.antt =====
-- What waking a thread, in src/ktimer.rs, keeps of each thread.
use rtsched.Base.{
  ℕ, ◌≡◌, ◌∙◌, refl, ap, Ptr, Bool, true, not, ◌||◌, Option, some, is_some, List, [], ◌∷◌, arith,
  inl, inr, Option-cases, saturating_add32,
}
use rtsched.Tree
use rtsched.Thread.{WaitEntity, ready, is_rt, ThreadState, SchedEntity}
use rtsched.Kernel.{Kernel, Returns, Returns-imp}
use rtsched.Kernel.Access.{kind, record_wakeup, set_thread_state, set_runtime, set_sched_entity}
use rtsched.RunQueue.{
  sched, requeue, update_from_leftmost, enqueue, enqueue_runq_from_waitq,
  cfs_sched_ticks_from_vruntime,
}
use rtsched.Timers.{wake_one, wake_rt, record_rt_budget_overrun}
use rtsched.Timers.Drain.{ThreadKind-cases}

-- A thread that has its timer, if it is an RT thread.
abbrev pub linked : Kernel → Ptr → Bool
linked k p = not (is_rt (kind k p)) || is_some (k.threads p).ktimer_entity

-- What waking a thread leaves of each thread: whether it has its timer, and its wait.
abbrev pub view : Kernel → Ptr → Bool × WaitEntity
view k q = (linked k q, (k.threads q).wait_entity)

abbrev pub SameLinks : Kernel → Kernel → Type 0
SameLinks k k' = (q : Ptr) → view k' q ≡ view k q

set_thread_state-SameLinks :
    (k : Kernel) (p : Ptr) (s : ThreadState) → SameLinks k (set_thread_state k p s)
set_thread_state-SameLinks k p s q = ground arith

set_sched_entity-SameLinks :
    (k : Kernel) (p : Ptr) (e : SchedEntity) → SameLinks k (set_sched_entity k p e)
set_sched_entity-SameLinks k p e q = ground arith

set_runtime-SameLinks : (k : Kernel) (p : Ptr) (n : ℕ) → SameLinks k (set_runtime k p n)
set_runtime-SameLinks k p n q = ground arith

record_wakeup-SameLinks : (k : Kernel) (p : Option Ptr) → SameLinks k (record_wakeup k p)
unfolding record_wakeup
record_wakeup-SameLinks k p q = ground arith

requeue-SameLinks : (xs ys : List Ptr) (k : Kernel) → SameLinks k (requeue k xs ys)
unfolding requeue
requeue-SameLinks [] ys k q = refl
requeue-SameLinks (x ∷ xs) ys k q =
    let e = sched k.threads x in
    let n = cfs_sched_ticks_from_vruntime e.vruntime e.priority k.priority_sum in
    requeue-SameLinks xs _ (set_sched_entity k x (record e { sched_tick_cnt = n })) q
    ∙ set_sched_entity-SameLinks k x _ q

update_from_leftmost-SameLinks : (k : Kernel) (p : Ptr) → SameLinks k (update_from_leftmost k p)
unfolding update_from_leftmost
update_from_leftmost-SameLinks k p q = elim (Option-cases (Tree.first k.run_queue)) [
  | inl e ↦ rw (e, update_from_leftmost) refl
  | inr (l, e) ↦ rw (e, update_from_leftmost) (set_sched_entity-SameLinks k p _ q)
]

enqueue_runq_from_waitq-SameLinks :
    (k : Kernel) (p : Ptr) → SameLinks k (enqueue_runq_from_waitq k p)
unfolding enqueue_runq_from_waitq enqueue
enqueue_runq_from_waitq-SameLinks k p q =
    let sum = saturating_add32 k.priority_sum (sched k.threads p).priority in
    let r = set_thread_state (record k { priority_sum = sum }) p ready in
    update_from_leftmost-SameLinks (requeue r r.run_queue []) p q
    ∙ requeue-SameLinks r.run_queue [] r q
    ∙ set_thread_state-SameLinks k p ready q

record_rt_budget_overrun-SameLinks :
    (k : Kernel) (e t : Ptr) → SameLinks k (record_rt_budget_overrun k e t)
unfolding record_rt_budget_overrun
record_rt_budget_overrun-SameLinks k e t q = ground arith

wake_rt-SameLinks :
    (k : Kernel) (p e : Ptr) (n : ℕ)
    → (k.threads p).ktimer_entity ≡ some e
    → Returns (SameLinks k) (wake_rt k p n)
unfolding wake_rt
wake_rt-SameLinks k p e n has_timer =
    let run = saturating_add32 (k.threads p).runtime n in
    rw (has_timer, wake_rt)
      λ q.
        record_rt_budget_overrun-SameLinks (set_runtime k p run) e p q
        ∙ set_runtime-SameLinks k p run q

woken-kind :
    (k : Kernel) (p : Ptr) → kind (record_wakeup (set_thread_state k p ready) (some p)) p ≡ kind k p
unfolding record_wakeup
woken-kind k p = ground arith

-- A thread that wakes returns to its queue, if it has its timer.
pub wake_one-SameLinks :
    (k : Kernel) (p : Ptr) (n : ℕ) → linked k p ≡ true → Returns (SameLinks k) (wake_one k p n)
unfolding wake_one
wake_one-SameLinks k p n has_timer =
    let s = set_thread_state k p ready in
    let w = record_wakeup s (some p) in
    let same =
      λ (q : Ptr). record_wakeup-SameLinks s (some p) q ∙ set_thread_state-SameLinks k p ready q in
    elim (ThreadKind-cases (kind k p)) [
      | inl e ↦ rw (e, wake_one) same
      | inr (inl e) ↦ rw (e, wake_one) λ q. enqueue_runq_from_waitq-SameLinks w p q ∙ same q
      | inr (inr e) ↦ elim (Option-cases (w.threads p).ktimer_entity) [
        | inl no_timer ↦ absurd (ground (arith, woken-kind k p, ap (λ x. x.0) (same p)))
        | inr (a, timer) ↦
            rw (e, wake_one)
              (Returns-imp (λ x h q. h q ∙ same q) (wake_rt w p n)
                (wake_rt-SameLinks w p a n timer))
      ]
    ]
