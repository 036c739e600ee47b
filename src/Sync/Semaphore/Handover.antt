-- ===== src/Sync/Semaphore/Handover.antt =====
-- Waking one CFS thread while no timer is due.
use rtsched.Base.{
  Ptr, Bool, true, false, not, ◌&&◌, none, some, List, [], ◌∷◌, ◌≡◌, refl, ap, ◌∙◌, ◌==◌,
  if◌then◌else◌, arith, Bool-cases, Option-cases, inl, inr, ap₂, saturating_add32,
}
use rtsched.Tree
use rtsched.Thread.{Thread, ThreadState, ThreadCtx, ThreadKind, ready, cfs, SchedEntity}
use rtsched.KTimer.{is_expired_at, set_expire_at}
use rtsched.KTimer.Queue.{KTimerQueue}
use rtsched.KTimer.Queue
use rtsched.Kernel.{Kernel, Returns, Returns->>=, ok}
use rtsched.Kernel.Access.{
  state, kind, ktimer, set_sched_entity, set_queue, set_ktimer, set_thread_state, record_wakeup,
  check_entity,
}
use rtsched.RunQueue.{
  requeue, update_from_leftmost, enqueue, enqueue_runq_from_waitq, sched,
  cfs_sched_ticks_from_vruntime,
}
use rtsched.WaitQueue.{remove_wait_thread, is_suspended}
use rtsched.Timers.{program_wait_ktimer, refresh_next_ktimer, first_wake_at, enqueue_inactive}
use rtsched.Sync.{wake_waiter}

-- The head of the active timers, if there is one, is not due and is not the wait timer, which is not
-- active: no timer has to be renewed.
abbrev pub is_calm_queue : KTimerQueue → Ptr → Bool
is_calm_queue q w = not (q.entities w).active && (elim q.first_active [
  | none ↦ true
  | some e ↦ not (is_expired_at q.now_ticks (q.entities e)) && not (e == w)
])

abbrev pub is_calm : Kernel → Bool
is_calm k = is_calm_queue k.ktimer_queue k.wait_ktimer

-- All threads' contexts and all timers are kept.
record KeepsCtx (k k' : Kernel) : Type 0 where
  ctx : (q : Ptr) → (k'.threads q).ctx ≡ (k.threads q).ctx
  queue : k'.ktimer_queue ≡ k.ktimer_queue
  wait_timer : k'.wait_ktimer ≡ k.wait_ktimer

set_sched_entity-ctx :
    (k : Kernel) (p : Ptr) (e : SchedEntity) (q : Ptr)
    → ((set_sched_entity k p e).threads q).ctx ≡ (k.threads q).ctx
set_sched_entity-ctx k p e q = elim (Bool-cases (q == p)) [
  | inl i ↦ let same : q ≡ p = ground arith in rw same (ground arith)
  | inr i ↦ ap (λ b. (if b then record (k.threads p) { sched_entity = e } else k.threads q).ctx) i
]

requeue-KeepsCtx : (xs ys : List Ptr) (k : Kernel) → KeepsCtx k (requeue k xs ys)
unfolding requeue
requeue-KeepsCtx [] ys k = record { ctx = λ q. refl; queue = refl; wait_timer = refl }
requeue-KeepsCtx (x ∷ xs) ys k =
    let e = sched k.threads x in
    let n = cfs_sched_ticks_from_vruntime e.vruntime e.priority k.priority_sum in
    let k' = set_sched_entity k x (record e { sched_tick_cnt = n }) in
    let rest = requeue-KeepsCtx xs _ k' in
    record {
      ctx = λ q. rest.ctx q ∙ set_sched_entity-ctx k x _ q;
      queue = rest.queue;
      wait_timer = rest.wait_timer;
    }

update_from_leftmost-KeepsCtx : (k : Kernel) (p : Ptr) → KeepsCtx k (update_from_leftmost k p)
unfolding update_from_leftmost
update_from_leftmost-KeepsCtx k p = elim (Option-cases (Tree.first k.run_queue)) [
  | inl e ↦
      rw (e, update_from_leftmost) (record { ctx = λ q. refl; queue = refl; wait_timer = refl })
  | inr (l, e) ↦
      rw (e, update_from_leftmost)
        (record { ctx = λ q. set_sched_entity-ctx k p _ q; queue = refl; wait_timer = refl })
]

-- The thread `p` is made ready, every other one keeps its state, and the kinds stay.
pub record IsWoken (k k' : Kernel) (p : Ptr) : Type 0 where
  pub woken : state k' p ≡ ready
  pub others : (q : Ptr) → (q == p) ≡ false → state k' q ≡ state k q
  pub kinds : (q : Ptr) → kind k' q ≡ kind k q
  pub calm : is_calm k' ≡ true

enqueue_runq_from_waitq-IsWoken :
    (k : Kernel) (p : Ptr) → is_calm k ≡ true → IsWoken k (enqueue_runq_from_waitq k p) p
unfolding enqueue_runq_from_waitq enqueue
enqueue_runq_from_waitq-IsWoken k p c =
    let sum = saturating_add32 k.priority_sum (sched k.threads p).priority in
    let k0 = set_thread_state (record k { priority_sum = sum }) p ready in
    let r = requeue k0 k0.run_queue [] in
    let u = update_from_leftmost r p in
    let h = requeue-KeepsCtx k0.run_queue [] k0 in
    let g = update_from_leftmost-KeepsCtx r p in
    let same : (q : Ptr) → (u.threads q).ctx ≡ (k0.threads q).ctx = λ q. g.ctx q ∙ h.ctx q in
    let st : ThreadCtx → ThreadState = λ c. c.state in
    let kd : ThreadCtx → ThreadKind = λ c. c.kind in
    record {
      woken = ap st (same p) ∙ ground arith;
      others = λ q i. ap st (same q) ∙ ground arith;
      kinds = λ q. ap kd (same q) ∙ ground arith;
      calm = ap₂ is_calm_queue (g.queue ∙ h.queue) (g.wait_timer ∙ h.wait_timer) ∙ c;
    }

refresh_calm :
    (k : Kernel)
    → is_calm k ≡ true
    → Returns (λ r. (r.threads ≡ k.threads) × (is_calm r ≡ true)) (refresh_next_ktimer k)
unfolding refresh_next_ktimer
refresh_calm k c = ground (arith, c)

-- The wait timer at a new deadline.
moved : Kernel → Kernel
unfolding Queue.remove Queue.enqueue_inactive
moved k =
    let w = k.wait_ktimer in
    let r = set_queue k (Queue.remove k.ktimer_queue w) in
    enqueue_inactive (set_ktimer r w (set_expire_at (first_wake_at k) (ktimer r w))) w

moved-calm : (k : Kernel) → is_calm k ≡ true → is_calm (moved k) ≡ true
unfolding moved Queue.remove Queue.enqueue_inactive Queue.insert
moved-calm k c = ground (arith, c)

moved-threads : (k : Kernel) → (moved k).threads ≡ k.threads
unfolding moved
moved-threads k = refl

-- Where no timer has to be renewed, the wait timer is programmed and nothing else happens.
program_wait_ktimer-calm :
    (k : Kernel)
    → is_calm k ≡ true
    → Returns (λ r. (r.threads ≡ k.threads) × (is_calm r ≡ true)) (program_wait_ktimer k)
unfolding program_wait_ktimer moved
program_wait_ktimer-calm k c =
    elim (Bool-cases ((ktimer k k.wait_ktimer).expire_at == first_wake_at k)) [
      | inl b ↦ rw (b, program_wait_ktimer) (refresh_calm k c)
      | inr b ↦ rw (b, program_wait_ktimer) (refresh_calm (moved k) (moved-calm k c))
    ]

-- Leaving the wait queue, and the trace, touch no thread and no timer.
record SameThreads (k k' : Kernel) : Type 0 where
  threads : k'.threads ≡ k.threads
  queue : k'.ktimer_queue ≡ k.ktimer_queue
  wait_timer : k'.wait_ktimer ≡ k.wait_ktimer

remove_wait_thread-SameThreads :
    (k : Kernel) (p : Ptr) → kind k p ≡ cfs → Returns (SameThreads k) (remove_wait_thread k p)
unfolding remove_wait_thread check_entity
remove_wait_thread-SameThreads k p h =
    rw (h, check_entity)
      (elim (Bool-cases (is_suspended (state k p))) [
        | inl b ↦ rw b (record { threads = refl; queue = refl; wait_timer = refl })
        | inr b ↦ rw b (record { threads = refl; queue = refl; wait_timer = refl })
      ])

record_wakeup-SameThreads : (k : Kernel) (p : Ptr) → SameThreads k (record_wakeup k (some p))
unfolding record_wakeup
record_wakeup-SameThreads k p = record { threads = refl; queue = refl; wait_timer = refl }

-- The last step: what `IsWoken` says is kept where the threads are.
IsWoken-of_same :
    (k k1 k2 r : Kernel) (p : Ptr)
    → k1.threads ≡ k.threads
    → IsWoken k1 k2 p
    → r.threads ≡ k2.threads
    → is_calm r ≡ true
    → IsWoken k r p
IsWoken-of_same k k1 k2 r p first w last c =
    let st : Ptr → (Ptr → Thread) → ThreadState = λ q threads. (threads q).ctx.state in
    let kd : Ptr → (Ptr → Thread) → ThreadKind = λ q threads. (threads q).ctx.kind in
    record {
      woken = ap (st p) last ∙ w.woken;
      others = λ q i. ap (st q) last ∙ w.others q i ∙ ap (st q) first;
      kinds = λ q. ap (kd q) last ∙ w.kinds q ∙ ap (kd q) first;
      calm = c;
    }

-- Waking a CFS thread returns.
pub wake_waiter-IsWoken :
    (k : Kernel) (p : Ptr)
    → kind k p ≡ cfs
    → is_calm k ≡ true
    → Returns (λ w. (w.1 ≡ ok tt) × IsWoken k w.0 p) (wake_waiter k p)
unfolding wake_waiter
wake_waiter-IsWoken k p h c =
    rw (h, wake_waiter)
      (Returns->>= (SameThreads k) (λ w. (w.1 ≡ ok tt) × IsWoken k w.0 p) (remove_wait_thread k p) _
        (remove_wait_thread-SameThreads k p h)
        λ k1 a.
          let k2 = record_wakeup k1 (some p) in
          let b = record_wakeup-SameThreads k1 p in
          let calm = ap₂ is_calm_queue (b.queue ∙ a.queue) (b.wait_timer ∙ a.wait_timer) ∙ c in
          let w = enqueue_runq_from_waitq-IsWoken k2 p calm in
          Returns->>=
            (λ r. (r.threads ≡ (enqueue_runq_from_waitq k2 p).threads) × (is_calm r ≡ true))
            (λ x. (x.1 ≡ ok tt) × IsWoken k x.0 p)
            (program_wait_ktimer (enqueue_runq_from_waitq k2 p)) _
            (program_wait_ktimer-calm (enqueue_runq_from_waitq k2 p) w.calm)
            λ r d. (
              refl,
              IsWoken-of_same k k2 (enqueue_runq_from_waitq k2 p) r p (b.threads ∙ a.threads) w d.0
                  d.1,
            ))
