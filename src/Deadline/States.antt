-- ===== src/Deadline/States.antt =====
-- The deadline operations of src/ktimer.rs leave the state of every thread alone.
use rtsched.Base.{
  ℕ, ◌≡◌, refl, Ptr, some, inl, inr, Bool-cases, Option-cases, if◌then◌else◌, same_ptr, arith,
}
use rtsched.Kernel.{Kernel, done, ◌>>=◌, Ensures, Ensures->>=, Ensures-of}
use rtsched.Kernel.Access.{state, set_queue, set_runtime, ktimer, now_ticks, is_cfs_ktimer}
use rtsched.KTimer.{is_expired_at}
use rtsched.KTimer.Queue
use rtsched.Timers.{
  refresh_next_ktimer, renew_expired_active, renew_rt, thread_of, check_deadline,
  is_real_rt_deadline_miss,
}
use rtsched.Yield.{scheduler_ktimer}
use rtsched.Deadline.{set_thread_scheduler_expire_at, rekey}

-- Every thread is in the state that it was in.
abbrev pub SameStates : Kernel → Kernel → Type 0
SameStates k k' = (q : Ptr) → state k' q ≡ state k q

set_runtime-SameStates : (k : Kernel) (p : Ptr) (n : ℕ) → SameStates k (set_runtime k p n)
set_runtime-SameStates k p n q = ground arith

renew_rt-SameStates : (k : Kernel) (e t : Ptr) → SameStates k (renew_rt k e t)
unfolding renew_rt
renew_rt-SameStates k e t q = set_runtime-SameStates k t 0 q

renew_expired_active-SameStates :
    (k : Kernel) (e : Ptr) → Ensures (SameStates k) (renew_expired_active k e)
unfolding renew_expired_active
renew_expired_active-SameStates k e = elim (Bool-cases (is_cfs_ktimer k e)) [
  | inl c ↦ rw (c, renew_expired_active) (λ _. refl)
  | inr c ↦
      rw (c, renew_expired_active)
        (Ensures->>= (λ _. Unit {0}) (SameStates k)
          (thread_of (set_queue k (Queue.remove k.ktimer_queue e)) e) _ (Ensures-of _ _ λ _. tt)
          λ t _.
            Ensures->>= (λ _. Unit {0}) (SameStates k)
              (check_deadline (set_queue k (Queue.remove k.ktimer_queue e)) e
                (is_real_rt_deadline_miss (set_queue k (Queue.remove k.ktimer_queue e)) e t) t)
              _ (Ensures-of _ _ λ _. tt)
              λ u _. renew_rt-SameStates (set_queue k (Queue.remove k.ktimer_queue e)) e t)
]

renewed :
    (k : Kernel) (e : Ptr)
    → Ensures (SameStates k) (
        if is_expired_at (now_ticks k) (ktimer k e)
        then (renew_expired_active k e >>= λ k'.
            done (record k' { next_ktimer = k'.ktimer_queue.first_active }))
        else done (record k { next_ktimer = some e }))
renewed k e = elim (Bool-cases (is_expired_at (now_ticks k) (ktimer k e))) [
  | inl b ↦ rw b (
      Ensures->>= (SameStates k) (SameStates k) (renew_expired_active k e) _
        (renew_expired_active-SameStates k e) λ k' h. h)
  | inr b ↦ rw b (λ _. refl)
]

refresh_next_ktimer-SameStates : (k : Kernel) → Ensures (SameStates k) (refresh_next_ktimer k)
unfolding refresh_next_ktimer
refresh_next_ktimer-SameStates k = elim (Option-cases k.ktimer_queue.first_active) [
  | inl e ↦ rw (e, refresh_next_ktimer) (λ _. refl)
  | inr (a, e) ↦ rw (e, refresh_next_ktimer) (renewed k a)
]

rekey-SameStates : (k : Kernel) (e : Ptr) (n : ℕ) → Ensures (SameStates k) (rekey k e n)
unfolding rekey
rekey-SameStates k e n = elim (Bool-cases (ktimer k e).active) [
  | inl b ↦ rw (b, rekey) (refresh_next_ktimer-SameStates _)
  | inr b ↦ rw (b, rekey) (refresh_next_ktimer-SameStates _)
]

pub set_thread_scheduler_expire_at-SameStates :
    (k : Kernel) (p : Ptr) (n : ℕ) → Ensures (SameStates k) (set_thread_scheduler_expire_at k p n)
unfolding set_thread_scheduler_expire_at
set_thread_scheduler_expire_at-SameStates k p n = elim (Option-cases (scheduler_ktimer k p)) [
  | inl none_kept ↦ rw (none_kept, set_thread_scheduler_expire_at) (λ _. refl)
  | inr (e, kept) ↦ elim (Bool-cases (Queue.contains k.ktimer_queue e)) [
    | inl b ↦ rw (kept, set_thread_scheduler_expire_at) (rw b (rekey-SameStates k e n))
    | inr b ↦ elim (Bool-cases (same_ptr k.next_ktimer (some e))) [
      | inl c ↦
          rw (kept, set_thread_scheduler_expire_at) (rw b (rw c (refresh_next_ktimer-SameStates _)))
      | inr c ↦ rw (kept, set_thread_scheduler_expire_at) (rw b (rw c (λ _. refl)))
    ]
  ]
]
