-- ===== src/Timers/Drain.antt =====
-- The loop of `wake_wait_thread` in src/ktimer.rs: what a round keeps, and that the rounds are enough.
use rtsched.Base.{
  ℕ, zero, suc, ◌-◌, ◌⊎◌, ap, ◌∙◌, saturating_add32, ◌+◌, ◌<◌, ◌≡◌, ◌≢◌, refl, Ptr, Option, some,
  List, [], ◌∷◌, length, arith, inl, inr, Option-cases,
}
use rtsched.Tree
use rtsched.Thread.{ThreadKind, idle, cfs, rt, ready}
use rtsched.KTimer.{set_expire_after}
use rtsched.KTimer.Queue
use rtsched.Kernel.{Kernel, Result, done, stopped, ◌>>=◌, Ensures, Ensures-imp, out_of_fuel}
use rtsched.Kernel.Access.{
  kind, now_ticks, record_wakeup, set_thread_state, set_runtime, ktimer, set_ktimer,
}
use rtsched.WaitQueue.{pop_expired_wait_thread}
use rtsched.RunQueue.{sched, requeue, update_from_leftmost, enqueue, enqueue_runq_from_waitq}
use rtsched.Timers.{
  wake_one, wake_rt, wake_loop, wake_wait_thread, record_rt_budget_overrun, enqueue_active,
}

-- A call leaves the timed waits and the clock alone.
abbrev pub Keeps : Kernel → Kernel → Type 0
Keeps k k' = (k'.wait_queue ≡ k.wait_queue) × (now_ticks k' ≡ now_ticks k)

requeue-Keeps : (xs ys : List Ptr) (k : Kernel) → Keeps k (requeue k xs ys)
unfolding requeue
requeue-Keeps [] ys k = (refl, refl)
requeue-Keeps (x ∷ xs) ys k = requeue-Keeps xs _ _

update_from_leftmost-Keeps : (k : Kernel) (p : Ptr) → Keeps k (update_from_leftmost k p)
unfolding update_from_leftmost
update_from_leftmost-Keeps k p = elim (Option-cases (Tree.first k.run_queue)) [
  | inl e ↦ rw (e, update_from_leftmost) (refl, refl)
  | inr (l, e) ↦ rw (e, update_from_leftmost) (refl, refl)
]

enqueue_runq_from_waitq-Keeps : (k : Kernel) (p : Ptr) → Keeps k (enqueue_runq_from_waitq k p)
unfolding enqueue_runq_from_waitq enqueue
enqueue_runq_from_waitq-Keeps k p =
    let sum = saturating_add32 k.priority_sum (sched k.threads p).priority in
    let r = set_thread_state (record k { priority_sum = sum }) p ready in
    let a = requeue-Keeps r.run_queue [] r in
    let b = update_from_leftmost-Keeps (requeue r r.run_queue []) p in (b.0 ∙ a.0, b.1 ∙ a.1)

enqueue_active-Keeps : (k : Kernel) (e : Ptr) → Keeps k (enqueue_active k e)
unfolding Queue.enqueue_active Queue.insert
enqueue_active-Keeps k e = ground arith

record_rt_budget_overrun-Keeps : (k : Kernel) (e t : Ptr) → Keeps k (record_rt_budget_overrun k e t)
unfolding record_rt_budget_overrun
record_rt_budget_overrun-Keeps k e t = ground arith

record_wakeup-Keeps : (k : Kernel) (p : Option Ptr) → Keeps k (record_wakeup k p)
unfolding record_wakeup
record_wakeup-Keeps k p = ground arith

wake_rt-Keeps : (k : Kernel) (p : Ptr) (n : ℕ) → Ensures (Keeps k) (wake_rt k p n)
unfolding wake_rt
wake_rt-Keeps k p n = elim (Option-cases (k.threads p).ktimer_entity) [
  | inl e ↦ rw (e, wake_rt) tt
  | inr (e, linked) ↦
      let run = saturating_add32 (k.threads p).runtime n in
      let k' = record_rt_budget_overrun (set_runtime k p run) e p in
      let left = (ktimer k' e).timing.relative_deadline_ticks - run in
      let r = record_rt_budget_overrun-Keeps (set_runtime k p run) e p in
      let a =
        enqueue_active-Keeps (set_ktimer k' e (set_expire_after (now_ticks k') left (ktimer k' e)))
          e in
      rw (linked, wake_rt) (a.0 ∙ r.0, a.1 ∙ r.1)
]

pub ThreadKind-cases : (x : ThreadKind) → (x ≡ idle) ⊎ (x ≡ cfs) ⊎ (x ≡ rt)
ThreadKind-cases idle = inl refl
ThreadKind-cases cfs = inr (inl refl)
ThreadKind-cases rt = inr (inr refl)

pub wake_one-Keeps : (k : Kernel) (p : Ptr) (n : ℕ) → Ensures (Keeps k) (wake_one k p n)
unfolding wake_one
wake_one-Keeps k p n = elim (ThreadKind-cases (kind k p)) [
  | inl e ↦ rw (e, wake_one) (record_wakeup-Keeps (set_thread_state k p ready) (some p))
  | inr (inl e) ↦
      let a = record_wakeup-Keeps (set_thread_state k p ready) (some p) in
      let b =
        enqueue_runq_from_waitq-Keeps (record_wakeup (set_thread_state k p ready) (some p)) p in
      rw (e, wake_one) (b.0 ∙ a.0, b.1 ∙ a.1)
  | inr (inr e) ↦
      let w = record_wakeup (set_thread_state k p ready) (some p) in
      let a = record_wakeup-Keeps (set_thread_state k p ready) (some p) in
      rw (e, wake_one)
        (Ensures-imp (λ x (h : Keeps w x). (h.0 ∙ a.0, h.1 ∙ a.1)) (wake_rt w p n)
          (wake_rt-Keeps w p n))
]

-- A thread that is popped leaves one waiting thread fewer, at the same time.
pub popped :
    (k : Kernel) (now : ℕ) {p : Ptr} {k' : Kernel} (ws : List Ptr)
    → k.wait_queue ≡ ws
    → pop_expired_wait_thread k now ≡ some (p, k')
    → (length ws ≡ length k'.wait_queue + 1) × (now_ticks k' ≡ now_ticks k)
unfolding pop_expired_wait_thread
popped k now [] e h = absurd (ground arith)
popped k now {p} {k'} (q ∷ rest) e h =
    let left : rest ≡ k'.wait_queue = ground arith in (rw (← left) (omega arith), ground arith)

>>=-in_fuel :
    (P : Kernel → Type 0) (r : Result Kernel) (f : Kernel → Result Kernel)
    → r ≢ stopped out_of_fuel
    → Ensures P r
    → ((k : Kernel) → P k → f k ≢ stopped out_of_fuel)
    → (r >>= f) ≢ stopped out_of_fuel
>>=-in_fuel P (done k) f h p g = g k p
>>=-in_fuel P (stopped s) f h p g = λ e. h (ground arith)

wake_one-in_fuel : (k : Kernel) (p : Ptr) (n : ℕ) → wake_one k p n ≢ stopped out_of_fuel
unfolding wake_one wake_rt
wake_one-in_fuel k p n = ground arith

in_fuel :
    (fuel : ℕ) (k : Kernel) (n : ℕ)
    → length k.wait_queue < fuel
    → wake_loop fuel k n ≢ stopped out_of_fuel
unfolding wake_loop
in_fuel zero k n h = absurd (omega arith)
in_fuel (suc fuel) k n h = elim (Option-cases (pop_expired_wait_thread k (now_ticks k))) [
  | inl e ↦ rw (e, wake_loop) λ g. ground arith
  | inr ((p, k'), e) ↦
      let one_less = popped k (now_ticks k) k.wait_queue refl e in
      rw (e, wake_loop)
        (>>=-in_fuel (Keeps k') (wake_one k' p n) _ (wake_one-in_fuel k' p n)
          (wake_one-Keeps k' p n)
          λ r kept. in_fuel fuel r n (omega (arith, one_less.0, ap length kept.0)))
]

-- The loop of `wake_wait_thread` ends: the rounds that it is given are enough for any queue.
pub wake_wait_thread-in_fuel : (k : Kernel) (n : ℕ) → wake_wait_thread k n ≢ stopped out_of_fuel
unfolding wake_wait_thread
wake_wait_thread-in_fuel k n = in_fuel (length k.wait_queue + 1) k n (omega arith)
