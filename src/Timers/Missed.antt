-- ===== src/Timers/Missed.antt =====
-- An expired RT timer at the head of the active timers: its next job window, or its deadline miss.
use rtsched.Base.{
  ◌+◌, ◌≤◌, Bool-cases, inl, inr, Ptr, Bool, true, false, some, none, Option, ◌≡◌, refl, ap, ◌∙◌,
  arith, if◌then◌else◌, u32_max, min,
}
use rtsched.KTimer.{KTimerEntity, is_expired_at, set_expire_after}
use rtsched.KTimer.Queue
use rtsched.KTimer.Queue.{KTimerQueue, contains}
use rtsched.KTimer.Queue.Inv.{IsValid}
use rtsched.KTimer.Queue.Members.{remove_lem}
use rtsched.KTimer.Queue.Rekey.{IsRekeyed, insert-IsRekeyed}
use rtsched.Tree
use rtsched.Tree.First.{has-first}
use rtsched.Base.{ℕ, ◌<◌, ◌==◌, u64_max, ap₂, subst}
use rtsched.Kernel.{Kernel, Result, done, stopped, ◌>>=◌, deadline_miss, null_pointer}
use rtsched.Kernel.Access.{ktimer, now_ticks, set_queue, is_cfs_ktimer, record_deadline_miss}
use rtsched.Trace.{increment}
use rtsched.Timers.{
  refresh_next_ktimer, renew_expired_active, is_real_rt_deadline_miss, record_rt_deadline_miss,
  check_deadline, enqueue_active, renew_rt,
}

-- The globals that a miss of thread `t` with the timer `e` leaves: it is counted once, by the trace and
-- by the timer, where the counters are not at their maximum.
pub record IsMissed (k k' : Kernel) (e : Ptr) : Type 0 where
  pub counted :
      k'.trace.counters.deadline_misses ≡ min (k.trace.counters.deadline_misses + 1) u32_max
  pub charged : (k'.rt_ktimers e).miss_cnt ≡ min ((k.rt_ktimers e).miss_cnt + 1) u32_max
  pub threads : k'.threads ≡ k.threads

record_rt_deadline_miss-IsMissed :
    (k : Kernel) (e t : Ptr)
    → k.trace.counters.deadline_misses ≤ u32_max
    → IsMissed k (record_rt_deadline_miss k e t) e
unfolding record_rt_deadline_miss record_deadline_miss increment
record_rt_deadline_miss-IsMissed k e t small = record {
  counted = ground arith;
  charged = ground arith;
  threads = refl;
}

-- The queue without the timer, whose entity it keeps.
without : Kernel → Ptr → Kernel
unfolding Queue.remove
without k e = set_queue k (Queue.remove k.ktimer_queue e)

without-deadline :
    (k : Kernel) (e t : Ptr)
    → is_real_rt_deadline_miss (without k e) e t ≡ is_real_rt_deadline_miss k e t
unfolding without Queue.remove
without-deadline k e t = elim (Bool-cases (ktimer k e).active) [
  | inl b ↦ ground (arith, b)
  | inr b ↦ ground (arith, b)
]

first-contains :
    (q : KTimerQueue) (e : Ptr) → Tree.first q.active_tree ≡ some e → contains q e ≡ true
unfolding contains
first-contains q e h = ground (arith, has-first q.active_tree {a = e} h)

-- What the calls do, by what they read.
checked : Kernel → Ptr → Ptr → Bool → Result Kernel
checked r e t missed = check_deadline r e missed t >>= λ _. done (enqueue_active (renew_rt r e t) e)

renew_of : Kernel → Ptr → Option Ptr → Result Kernel
unfolding checked
renew_of r e o =
    (elim o as (λ _. Result Ptr) [ none ↦ stopped null_pointer | some t ↦ done t ]) >>= λ t.
    checked r e t (is_real_rt_deadline_miss r e t)

refresh_due : Kernel → Ptr → Bool → Result Kernel
refresh_due k e due =
    if due
    then (renew_expired_active k e >>= λ k'.
        done (record k' { next_ktimer = k'.ktimer_queue.first_active }))
    else done (record k { next_ktimer = some e })

refresh_of : Kernel → Option Ptr → Result Kernel
unfolding refresh_due
refresh_of k o = elim o [
  | none ↦ done (record k { next_ktimer = none })
  | some e ↦ refresh_due k e (is_expired_at (now_ticks k) (ktimer k e))
]

renew_expired_active-missed :
    (k : Kernel) (e t : Ptr)
    → is_cfs_ktimer k e ≡ false
    → (k.rt_ktimers e).thread_ctx ≡ some t
    → is_real_rt_deadline_miss k e t ≡ true
    → renew_expired_active k e
      ≡ stopped (deadline_miss (record_rt_deadline_miss (without k e) e t) t)
unfolding renew_expired_active without renew_of checked
renew_expired_active-missed k e t rt linked missed =
    rw (rt, renew_expired_active)
      (ap (renew_of (without k e) e) linked
        ∙ ap (checked (without k e) e t) (without-deadline k e t ∙ missed))

-- A due timer at the head of the active ones is handed on to be renewed.
refresh_next_ktimer-due :
    (k : Kernel) (e : Ptr)
    → k.ktimer_queue.first_active ≡ some e
    → is_expired_at (now_ticks k) (ktimer k e) ≡ true
    → refresh_next_ktimer k ≡ refresh_due k e true
unfolding refresh_next_ktimer refresh_of refresh_due
refresh_next_ktimer-due k e first due = ap (refresh_of k) first ∙ ap (refresh_due k e) due

renew_expired_active-met :
    (k : Kernel) (e t : Ptr)
    → is_cfs_ktimer k e ≡ false
    → (k.rt_ktimers e).thread_ctx ≡ some t
    → is_real_rt_deadline_miss k e t ≡ false
    → renew_expired_active k e ≡ done (enqueue_active (renew_rt (without k e) e t) e)
unfolding renew_expired_active without renew_of checked
renew_expired_active-met k e t rt linked met =
    rw (rt, renew_expired_active)
      (ap (renew_of (without k e) e) linked
        ∙ ap (checked (without k e) e t) (without-deadline k e t ∙ met))

-- The next job window of the timer `e` of the thread `t`: it starts now and lasts for the relative
-- deadline, up to the clock's end; the thread's run time starts at 0.
pub record IsRenewed (k r : Kernel) (e t : Ptr) : Type 0 where
  pub queue : IsRekeyed k.ktimer_queue r.ktimer_queue e (record (ktimer k e) {
    expire_at = min (now_ticks k + (ktimer k e).timing.relative_deadline_ticks) u64_max;
    active = true;
  })
  pub runtime : (a : Ptr) → (r.threads a).runtime ≡ (if a == t then 0 else (k.threads a).runtime)
  pub selected : r.next_ktimer ≡ Tree.first r.ktimer_queue.active_tree

-- What may come out when the timer `e` of the thread `t` is due.
abbrev pub IsRefreshed : Kernel → Ptr → Ptr → Result Kernel → Type 0
IsRefreshed k e t (done r) =
    ((k.threads t).runtime ≤ (ktimer k e).timing.relative_deadline_ticks) × IsRenewed k r e t
IsRefreshed k e t (stopped (deadline_miss k' t')) =
    ((ktimer k e).timing.relative_deadline_ticks < (k.threads t).runtime)
    × (t' ≡ t)
    × IsMissed k k' e
IsRefreshed k e t (stopped x) = ⊥

renewed : Kernel → Ptr → Ptr → Kernel
unfolding without renew_rt Queue.enqueue_active Queue.insert
renewed k e t =
    let r = enqueue_active (renew_rt (without k e) e t) e in
    record r { next_ktimer = r.ktimer_queue.first_active }

renewed-IsRenewed :
    (k : Kernel) (e t : Ptr)
    → IsValid k.ktimer_queue
    → contains k.ktimer_queue e ≡ true
    → IsRenewed k (renewed k e t) e t
unfolding renewed without renew_rt
renewed-IsRenewed k e t v linked =
    let q = k.ktimer_queue in
    let r = Queue.remove q e in
    let out = remove_lem q e v linked in
    let next : ℕ → KTimerEntity → KTimerEntity =
      λ now x. set_expire_after now x.timing.relative_deadline_ticks x in
    let new = λ (now : ℕ) (x : KTimerEntity). record (next now x) { active = true } in
    let same : new r.now_ticks (r.entities e) ≡ new q.now_ticks (q.entities e) =
      ap₂ (λ (f : Ptr → KTimerEntity) (now : ℕ). new now (f e)) out.3 out.4 in
    let moved =
      subst (IsRekeyed q (renewed k e t).ktimer_queue e) same
        (insert-IsRekeyed q e (next r.now_ticks (r.entities e)) true v linked) in
    record { queue = moved; runtime = λ a. ground arith; selected = moved.valid.active_cached }

-- For a timer queue that keeps its invariant, with an RT timer at the head of the active timers that
-- has expired and has a thread, `refresh_next_ktimer` either returns or stops with a deadline miss.
-- It returns only if the thread has run for at most the relative deadline: then the timer expires
-- after the relative deadline from now, at most at the clock's end, the thread's run time is 0, the
-- same timers are linked, in order, and the first active one is selected. It stops only if the thread
-- has run for longer: then the miss is of this thread, and has been counted once by the trace, whose
-- counter is a 32-bit word, and by the timer; both saturate.
pub refresh_next_ktimer-IsRefreshed :
    (k : Kernel) (e t : Ptr)
    → IsValid k.ktimer_queue
    → Tree.first k.ktimer_queue.active_tree ≡ some e
    → (ktimer k e).expire_at ≤ now_ticks k
    → is_cfs_ktimer k e ≡ false
    → (k.rt_ktimers e).thread_ctx ≡ some t
    → k.trace.counters.deadline_misses ≤ u32_max
    → IsRefreshed k e t (refresh_next_ktimer k)
unfolding refresh_due without renewed
refresh_next_ktimer-IsRefreshed k e t v head h rt linked small =
    let first = v.active_cached ∙ head in
    let due : is_expired_at (now_ticks k) (ktimer k e) ≡ true = ground arith in
    let select : Kernel → Result Kernel =
      λ k'. done (record k' { next_ktimer = k'.ktimer_queue.first_active }) in
    let turn = refresh_next_ktimer-due k e first due in
    elim (Bool-cases (is_real_rt_deadline_miss k e t)) [
      | inl missed ↦
          let kept = record_rt_deadline_miss-IsMissed (without k e) e t small in
          let late : (ktimer k e).timing.relative_deadline_ticks < (k.threads t).runtime =
            ground arith in
          let stops =
            turn ∙ ap (λ x. x >>= select) (renew_expired_active-missed k e t rt linked missed) in
          rw stops (
            late,
            refl,
            record { counted = kept.counted; charged = kept.charged; threads = kept.threads },
          )
      | inr met ↦
          let in_time : (k.threads t).runtime ≤ (ktimer k e).timing.relative_deadline_ticks =
            ground arith in
          let queued = first-contains k.ktimer_queue e head in
          let returns =
            turn ∙ ap (λ x. x >>= select) (renew_expired_active-met k e t rt linked met) in
          rw returns (in_time, renewed-IsRenewed k e t v queued)
    ]
