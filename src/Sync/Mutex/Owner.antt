-- ===== src/Sync/Mutex/Owner.antt =====
-- Who owns a mutex of src/sync.rs.
use rtsched.Base.{
  false, not, ◌&&◌, true, ◌==◌, ℕ, ◌≡◌, refl, inl, inr, none, some, [], ◌∷◌, if◌then◌else◌, arith,
  Ptr, Bool-cases, Option-cases,
}
use rtsched.SyncType.{mutex}
use rtsched.Kernel.{
  ReturnsIf, ReturnsIf-of, Returns, ok, Kernel, Ensures, Ensures->>=, Ensures-of, Except-cases,
}
use rtsched.Deadline.{set_thread_scheduler_expire_at}
use rtsched.Deadline.States.{SameStates, set_thread_scheduler_expire_at-SameStates}
use rtsched.Sync.{WaitTree, pop_waiting_thread, block_current_thread_on}
use rtsched.Sync.Mutex.{
  MutexState, lock, lock_blocking, boost_owner_deadline, restore_owner_deadline, release,
  unlock_guard,
}
use rtsched.Sync.Semaphore.Tokens.{AreBlocked}
use rtsched.Kernel.{◌>>=◌}
use rtsched.Kernel.Access.{state}
use rtsched.Thread.{is_blocked, is_cfs, cfs}
use rtsched.Base.{Bool, ap, ◌∙◌}
use rtsched.Sync.{wake_waiter}
use rtsched.Kernel.{Returns->>=}
use rtsched.Kernel.Access.{kind}
use rtsched.Sync.Semaphore.Handover.{is_calm, IsWoken, wake_waiter-IsWoken}
use rtsched.Base.{All-imp}

boost-owner :
    (k : Kernel) (m : MutexState) (o p : Ptr) (d : ℕ)
    → Ensures (λ r. r.1.owner ≡ m.owner) (boost_owner_deadline k m o p d)
unfolding boost_owner_deadline
boost-owner k m o p d = ground arith

restore-keeps :
    (k : Kernel) (m : MutexState) (o : Ptr)
    → Ensures
        (λ r. (r.1.waiters ≡ m.waiters) × (r.1.owner_boosted ≡ false) × SameStates k r.0)
        (restore_owner_deadline k m (some o))
unfolding restore_owner_deadline
restore-keeps k m o = elim (Bool-cases m.owner_boosted) [
  | inl e ↦
      rw (e, restore_owner_deadline)
        (Ensures->>= (SameStates k) _
          (set_thread_scheduler_expire_at k o m.owner_original_deadline_at) _
          (set_thread_scheduler_expire_at-SameStates k o m.owner_original_deadline_at)
          λ k' h. (refl, refl, h))
  | inr e ↦ rw (e, restore_owner_deadline) (refl, refl, λ _. refl)
]

lock_blocking-owner :
    (k : Kernel) (m : MutexState) (o p : Ptr)
    → Ensures (λ r. r.1.owner ≡ m.owner) (lock_blocking k m o p)
unfolding lock_blocking
lock_blocking-owner k m o p =
    Ensures->>= (λ _. Unit {0}) (λ r. r.1.owner ≡ m.owner)
      (block_current_thread_on k m.waiters mutex p) _ (Ensures-of _ _ λ _. tt)
      λ r _. elim (Except-cases r.2) [
        | inl (d, e) ↦ ground (arith, boost-owner r.0 (record m { waiters = r.1 }) o p d)
        | inr (x, e) ↦ ground arith
      ]

-- `lock` returns if the mutex is free or the current thread owns it. When it returns, a mutex that
-- was free belongs to the current thread, and one that was owned still has its owner.
pub lock-owner :
    (k : Kernel) (m : MutexState) (p : Ptr)
    → k.current_thread_ctx ≡ some p
    → ReturnsIf
        (elim m.owner [ none ↦ true | some o ↦ o == p ])
        (λ r. r.1.owner ≡ (elim m.owner [ none ↦ some p | some o ↦ some o ]))
        (lock k m)
unfolding lock
lock-owner k m p e = elim (Option-cases m.owner) [
  | inl free ↦ rw (e, lock) (rw (free, lock) refl)
  | inr (o, owned) ↦ ground (arith, lock_blocking-owner k m o p)
]

-- The mutex after its owner let it go: the first waiter of `ws` has it, and leaves the waiters; no
-- deadline is left to restore.
abbrev pub IsReleased : WaitTree → MutexState → Type 0
IsReleased [] m = (m.owner ≡ none) × (m.waiters ≡ []) × (m.owner_boosted ≡ false)
IsReleased (p ∷ rest) m = (m.owner ≡ some p) × (m.waiters ≡ rest) × (m.owner_boosted ≡ false)

release-IsReleased :
    (k : Kernel) (m : MutexState) (ws : WaitTree)
    → m.waiters ≡ ws
    → AreBlocked k ws
    → m.owner_boosted ≡ false
    → Ensures (λ r. IsReleased ws r.1) (release k m)
unfolding release pop_waiting_thread
release-IsReleased k m [] e blocked quiet = ground arith
release-IsReleased k m (p ∷ rest) e blocked quiet = ground (arith, blocked.0)

blocked_still :
    (k k' : Kernel) (ws : WaitTree) → SameStates k k' → AreBlocked k ws → AreBlocked k' ws
blocked_still k k' ws same =
    All-imp {P = λ p. is_blocked (state k p) ≡ true} {Q = λ p. is_blocked (state k' p) ≡ true}
      (λ p h. rw (same p) h) ws

-- The owner passes the test of `unlock_guard`.
own :
    (k : Kernel) (m : MutexState) (p : Ptr)
    → k.current_thread_ctx ≡ some p
    → m.owner ≡ some p
    → unlock_guard k m ≡ (restore_owner_deadline k m (some p) >>= λ r. release r.0 r.1)
unfolding unlock_guard
own k m p mine owned = rw (mine, owned, unlock_guard) (ground arith)

handed_over :
    (k : Kernel) (m : MutexState) (p : Ptr)
    → k.current_thread_ctx ≡ some p
    → m.owner ≡ some p
    → AreBlocked k m.waiters
    → Ensures (λ r. IsReleased m.waiters r.1) (unlock_guard k m)
handed_over k m p mine owned blocked = rw (own k m p mine owned) (
    Ensures->>= (λ r. (r.1.waiters ≡ m.waiters) × (r.1.owner_boosted ≡ false) × SameStates k r.0) _
      (restore_owner_deadline k m (some p)) _ (restore-keeps k m p)
      λ r h.
        release-IsReleased r.0 r.1 m.waiters h.0 (blocked_still k r.0 m.waiters h.2 blocked) h.1)

-- The first waiter can be woken without looking at the timer hardware: there is none, or it is a CFS
-- thread, the wait timer is neither active nor at the head, and the head of the active timers is not due.
abbrev pub wakes_calmly : Kernel → WaitTree → Bool
wakes_calmly k [] = true
wakes_calmly k (p ∷ rest) = is_cfs (kind k p) && is_calm k

release-returns :
    (k : Kernel) (m : MutexState) (ws : WaitTree)
    → m.waiters ≡ ws
    → AreBlocked k ws
    → m.owner_boosted ≡ false
    → wakes_calmly k ws ≡ true
    → Returns (λ r. IsReleased ws r.1) (release k m)
unfolding release pop_waiting_thread
release-returns k m [] e blocked quiet ready = ground arith
release-returns k m (p ∷ rest) e blocked quiet ready =
    let cfs_thread : kind k p ≡ cfs = ground arith in
    let still : is_calm k ≡ true = ground arith in
    let popped : pop_waiting_thread k m.waiters ≡ (some p, rest) =
      ap (pop_waiting_thread k) e
      ∙ ap (λ (b : Bool). (if b then some p else none, rest)) blocked.0 in
    rw (popped, release)
      ((Returns->>= (λ w. (w.1 ≡ ok tt) × IsWoken k w.0 p) (λ r. IsReleased (p ∷ rest) r.1)
        (wake_waiter k p) _ (wake_waiter-IsWoken k p cfs_thread still)
        λ w h. rw h.0 (refl, ap (λ x. x.1) popped, quiet)))

-- With no deadline to restore, the hand-over returns.
freed :
    (k : Kernel) (m : MutexState) (p : Ptr)
    → k.current_thread_ctx ≡ some p
    → m.owner ≡ some p
    → AreBlocked k m.waiters
    → (not m.owner_boosted && wakes_calmly k m.waiters) ≡ true
    → Returns (λ r. IsReleased m.waiters r.1) (unlock_guard k m)
unfolding restore_owner_deadline
freed k m p mine owned blocked quiet =
    let calm : m.owner_boosted ≡ false = ground arith in
    let ready : wakes_calmly k m.waiters ≡ true = ground arith in
    rw (own k m p mine owned) (simp calm (release-returns k m m.waiters refl blocked calm ready))

-- The owner of a mutex, all of whose waiters are blocked, unlocks it. `unlock_guard` returns if the
-- owner's deadline is not boosted, and nobody waits or the first waiter is a CFS thread, the wait timer
-- is neither active nor first, and the first active timer is not due. Whenever it returns, the first waiter owns the mutex and
-- has left the waiters, and the others wait in the same order; nobody owns it if nobody waited. The
-- owner's deadline is no longer boosted.
pub unlock-owner :
    (k : Kernel) (m : MutexState) (p : Ptr)
    → k.current_thread_ctx ≡ some p
    → m.owner ≡ some p
    → AreBlocked k m.waiters
    → ReturnsIf
        (not m.owner_boosted && wakes_calmly k m.waiters)
        (λ r. IsReleased m.waiters r.1)
        (unlock_guard k m)
unlock-owner k m p mine owned blocked =
    ReturnsIf-of (not m.owner_boosted && wakes_calmly k m.waiters) (λ r. IsReleased m.waiters r.1)
      (unlock_guard k m) (handed_over k m p mine owned blocked) (freed k m p mine owned blocked)
