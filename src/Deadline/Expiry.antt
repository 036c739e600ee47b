-- ===== src/Deadline/Expiry.antt =====
-- The scheduler deadline that the mutex sets in src/ktimer.rs: the thread's timer is keyed again, and
-- the selected timer follows.
use rtsched.Base.{
  ℕ, ◌<◌, ◌≡◌, refl, ap, ◌∙◌, Ptr, Bool, true, none, some, inl, inr, subst, Bool-cases,
  if◌then◌else◌, ◌||◌, same_ptr, arith, List, [], ◌∷◌,
}
use rtsched.Tree
use rtsched.Kernel.{Returns, Kernel, done}
use rtsched.Kernel.Access.{set_queue, ktimer, set_ktimer, now_ticks}
use rtsched.KTimer.{KTimerEntity, set_expire_at}
use rtsched.KTimer.Queue
use rtsched.KTimer.Queue.{KTimerQueue, contains}
use rtsched.KTimer.Queue.Inv.{IsValid}
use rtsched.KTimer.Queue.Members.{remove_lem}
use rtsched.KTimer.Queue.Rekey.{
  IsRekeyed, IsAhead, insert-IsRekeyed, set_entity-IsRekeyed, IsRekeyed-IsAhead,
}
use rtsched.Timers.{refresh_next_ktimer}
use rtsched.Yield.{scheduler_ktimer}
use rtsched.Deadline.{set_thread_scheduler_expire_at, rekey}

-- While no active timer is due, `refresh_next_ktimer` selects the first of them.
refresh_ahead :
    (k : Kernel) (ts : List Ptr)
    → k.ktimer_queue.active_tree ≡ ts
    → IsValid k.ktimer_queue
    → IsAhead k.ktimer_queue
    → refresh_next_ktimer k ≡ done (record k { next_ktimer = Tree.first ts })
unfolding refresh_next_ktimer
refresh_ahead k [] e v ahead =
    let first : k.ktimer_queue.first_active ≡ none = v.active_cached ∙ ap Tree.first e in
    simp (first, refresh_next_ktimer)
refresh_ahead k (a ∷ ts) e v ahead = ground (arith, v.active_cached, ahead)

-- The timer `e` has the expiration `n` and stands where it stood; the selection is made again if the timer
-- is queued or selected.
pub record IsRetimed (k r : Kernel) (e : Ptr) (n : ℕ) : Type 0 where
  pub queue : IsRekeyed k.ktimer_queue r.ktimer_queue e (set_expire_at n (ktimer k e))
  pub selected : r.next_ktimer ≡ (
      if contains k.ktimer_queue e || same_ptr k.next_ktimer (some e)
      then Tree.first r.ktimer_queue.active_tree
      else k.next_ktimer)
  pub threads : r.threads ≡ k.threads

-- What `rekey` hands to `refresh_next_ktimer`.
rekeyed : Kernel → Ptr → ℕ → Bool → Kernel
unfolding Queue.remove Queue.insert
rekeyed k e n active =
    let r = set_queue k (Queue.remove k.ktimer_queue e) in
    let k' = set_ktimer r e (set_expire_at n (ktimer r e)) in
    set_queue k' (Queue.insert k'.ktimer_queue e active)

rekey-rekeyed :
    (k : Kernel) (e : Ptr) (n : ℕ)
    → rekey k e n ≡ refresh_next_ktimer (rekeyed k e n (ktimer k e).active)
unfolding rekey rekeyed Queue.enqueue_active Queue.enqueue_inactive
rekey-rekeyed k e n = elim (Bool-cases (ktimer k e).active) [
  | inl b ↦ rw (b, rekey) refl
  | inr b ↦ rw (b, rekey) refl
]

rekeyed-IsRekeyed :
    (k : Kernel) (e : Ptr) (n : ℕ)
    → IsValid k.ktimer_queue
    → contains k.ktimer_queue e ≡ true
    → IsRekeyed k.ktimer_queue
        (rekeyed k e n (ktimer k e).active).ktimer_queue
        e
        (set_expire_at n (ktimer k e))
unfolding rekeyed
rekeyed-IsRekeyed k e n v linked =
    let q = k.ktimer_queue in
    let r = Queue.remove q e in
    let same : set_expire_at n (r.entities e) ≡ set_expire_at n (q.entities e) =
      ap (λ (f : Ptr → KTimerEntity). set_expire_at n (f e)) (remove_lem q e v linked).3 in
    subst
      (λ (x : KTimerEntity).
        IsRekeyed q (rekeyed k e n (ktimer k e).active).ktimer_queue e
          (record x { active = (ktimer k e).active }))
      same (insert-IsRekeyed q e (set_expire_at n (r.entities e)) (ktimer k e).active v linked)

refreshed :
    (k k' : Kernel) (e : Ptr) (n : ℕ)
    → IsValid k.ktimer_queue
    → IsAhead k.ktimer_queue
    → now_ticks k < n
    → (contains k.ktimer_queue e || same_ptr k.next_ktimer (some e)) ≡ true
    → IsRekeyed k.ktimer_queue k'.ktimer_queue e (set_expire_at n (ktimer k e))
    → k'.threads ≡ k.threads
    → Returns (λ r. IsRetimed k r e n) (refresh_next_ktimer k')
refreshed k k' e n v ahead h again moved threads =
    let later = IsRekeyed-IsAhead v moved ahead h in
    rw (refresh_ahead k' k'.ktimer_queue.active_tree refl moved.valid later)
      (record { queue = moved; selected = rw again refl; threads = threads })

-- Setting the deadline of a thread that has a scheduler timer, while the timer queue keeps its
-- invariant and no active timer is due, to a time ahead of the present, returns. The timer has this
-- expiration; all other fields of it and all other timers are as before, and exactly the same timers
-- are linked, in trees that are in order again. If the timer was linked or selected, the first active
-- timer of the new order is selected; if not, the selection is as before.
pub set_thread_scheduler_expire_at_lem :
    (k : Kernel) (p e : Ptr) (n : ℕ)
    → IsValid k.ktimer_queue
    → IsAhead k.ktimer_queue
    → scheduler_ktimer k p ≡ some e
    → now_ticks k < n
    → Returns (λ r. IsRetimed k r e n) (set_thread_scheduler_expire_at k p n)
unfolding set_thread_scheduler_expire_at rekeyed
set_thread_scheduler_expire_at_lem k p e n v ahead s h =
    let w = set_ktimer k e (set_expire_at n (ktimer k e)) in
    rw (s, set_thread_scheduler_expire_at)
      (elim (Bool-cases (contains k.ktimer_queue e)) [
        | inl linked ↦ rw linked (
            rw (rekey-rekeyed k e n) (
              refreshed k (rekeyed k e n (ktimer k e).active) e n v ahead h (ground arith)
                (rekeyed-IsRekeyed k e n v linked) refl))
        | inr out ↦
            let moved =
              set_entity-IsRekeyed k.ktimer_queue e (set_expire_at n (ktimer k e)) v out in
            elim (Bool-cases (same_ptr k.next_ktimer (some e))) [
              | inl on ↦ rw (out, on) (refreshed k w e n v ahead h (ground arith) moved refl)
              | inr off ↦
                  rw (out, off)
                    (record { queue = moved; selected = rw (out, off) refl; threads = refl })
            ]
      ])
