-- ===== src/Sync/Mutex.antt =====
-- The mutex of src/sync.rs, with the deadline boost of its owner. The protected value is not
-- modelled. An owner token is the owner's address.
pub mod Owner
use rtsched.Base.{
  ℕ, Ptr, Bool, true, false, Option, none, some, [], leb, ◌==◌, ◌&&◌, same_ptr, if◌then◌else◌, min,
}
use rtsched.SyncType.{mutex}
use rtsched.Thread.{is_cfs}
use rtsched.Kernel.{Kernel, Result, done, ◌>>=◌, Except, ok, err, WaitQueueError}
use rtsched.Kernel.Access.{kind, request_context_switch}
use rtsched.Deadline.{
  thread_scheduler_expire_at, earliest_queued_scheduler_expire_at, set_thread_scheduler_expire_at,
}
use rtsched.Sync.{WaitTree, block_current_thread_on, pop_waiting_thread, wake_waiter}

pub data MutexError : Type 0 where
  would_block would_deadlock no_current_thread : MutexError
  wait_queue : WaitQueueError → MutexError

-- The owner word is 0 when the mutex is free.
pub record MutexState : Type 0 where
  pub owner : Option Ptr
  pub waiters : WaitTree
  pub owner_original_deadline_at : ℕ
  pub owner_boosted : Bool

abbrev pub new : MutexState
new = record { owner = none; waiters = []; owner_original_deadline_at = 0; owner_boosted = false }

abbrev pub Outcome : Type 0
Outcome = Kernel × MutexState × Except MutexError (Unit {0})

abbrev pub is_locked : MutexState → Bool
is_locked m = elim m.owner [ none ↦ false | some _ ↦ true ]

unfoldable pub try_lock : Kernel → MutexState → Outcome
try_lock k m = elim k.current_thread_ctx [
  | none ↦ (k, m, err no_current_thread)
  | some p ↦ elim m.owner [
    | none ↦ (k, record m { owner = some p }, ok tt)
    | some o ↦ (k, m, err (if o == p then would_deadlock else would_block))
  ]
]

-- The owner inherits the earliest of the waiter's deadline and the queued ones, if that is earlier
-- than its own; the first boost saves the owner's deadline.
unfoldable pub boost_owner_deadline :
    Kernel → MutexState → Ptr → Ptr → ℕ → Result (Kernel × MutexState)
boost_owner_deadline k m owner waiter waiter_deadline_at =
    if is_cfs (kind k owner) && is_cfs (kind k waiter) then done (k, m) else do
      earliest ← earliest_queued_scheduler_expire_at k
      let boost = min waiter_deadline_at earliest
      let own = thread_scheduler_expire_at k owner
      let m' =
          if m.owner_boosted
          then m
          else record m { owner_original_deadline_at = own; owner_boosted = true }
      if leb own boost
          then done (k, m)
          else set_thread_scheduler_expire_at k owner boost >>= λ k'. done (k', m')

unfoldable pub restore_owner_deadline :
    Kernel → MutexState → Option Ptr → Result (Kernel × MutexState)
restore_owner_deadline k m owner =
    let m' = record m { owner_original_deadline_at = 0; owner_boosted = false } in
    if m.owner_boosted
    then elim owner [
      | none ↦ done (k, m')
      | some o ↦
          set_thread_scheduler_expire_at k o m.owner_original_deadline_at >>= λ k'. done (k', m')
    ]
    else done (k, m)

-- A thread that finds the mutex owned by another blocks, then boosts the owner.
unfoldable pub lock_blocking : Kernel → MutexState → Ptr → Ptr → Result Outcome
lock_blocking k m owner p = do
  (k', waiters, blocked) ← block_current_thread_on k m.waiters mutex p
  let m' = record m { waiters = waiters }
  elim blocked [
    | err x ↦ done (k', m', err (wait_queue x))
    | ok deadline_at ↦ do
      (k'', m'') ← boost_owner_deadline k' m' owner p deadline_at
      done (k'', m'', ok tt)
  ]

unfoldable pub lock : Kernel → MutexState → Result Outcome
lock k m = elim k.current_thread_ctx [
  | none ↦ done (k, m, err no_current_thread)
  | some p ↦ elim m.owner [
    | none ↦ done (k, record m { owner = some p }, ok tt)
    | some o ↦ if o == p then done (k, m, err would_deadlock) else lock_blocking k m o p
  ]
]

-- The end of `unlock_guard`, once the owner's deadline is restored: the mutex passes to the
-- waiter with the earliest deadline, or becomes free.
unfoldable pub release : Kernel → MutexState → Result Outcome
release k m =
    let (popped, waiters) = pop_waiting_thread k m.waiters in
    elim popped [
      | none ↦ done (k, record m { owner = none; waiters = waiters }, ok tt)
      | some p ↦ do
        let m' = record m { owner = some p; waiters = waiters }
        (k', woken) ← wake_waiter k p
        done (elim woken [
          | ok _ ↦ (request_context_switch k', m', ok tt)
          | err x ↦ (k', m', err (wait_queue x))
        ])
    ]

-- Only the owning thread releases. (That another does not is a debug assertion.)
unfoldable pub unlock_guard : Kernel → MutexState → Result Outcome
unlock_guard k m =
    if same_ptr m.owner k.current_thread_ctx
    then (restore_owner_deadline k m m.owner >>= λ r. release r.0 r.1)
    else done (k, m, ok tt)
