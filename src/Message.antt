-- ===== src/Message.antt =====
-- src/message.rs: a ring of `capacity` slots (the const parameter `N`), its blocked senders and
-- receivers. A slot that was never written is `none`.
pub mod Refine
use rtsched.Base.{
  Ptr, Bool, true, false, not, Option, none, some, List, [], ◌∷◌, ◌||◌, if◌then◌else◌,
}
use rtsched.SyncType.{SyncType, message_queue_send, message_queue_receive}
use rtsched.Thread.{ThreadState, running, ready, waiting, suspended}
use rtsched.Kernel.{
  Kernel, Result, done, stopped, ◌>>=◌, invalid_waiter, out_of_fuel, Except, ok, err,
  WaitQueueError,
}
use rtsched.Kernel.Access.{state, kind, request_context_switch}
use rtsched.Yield.{is_idle_kind}
use rtsched.Sync.{
  WaitTree, block_current_thread, insert_sync_waiter, pop_waiting_thread, wake_waiter,
}
use rtsched.Ring.{Ring, is_full, is_empty, write, read}

pub data MessageQueueStatus : Type 0 where
  full empty no_current_thread invalid_context : MessageQueueStatus
  wait_queue : WaitQueueError → MessageQueueStatus

-- `QueueState`; the ring holds `slots`, `head` and `len`.
pub record MessageQueue (T : Type 0) : Type 0 where
  pub ring : Ring T
  pub senders : WaitTree
  pub receivers : WaitTree

abbrev pub Outcome : Type 0 → Type 0 → Type 0
Outcome T A = Kernel × MessageQueue T × Except MessageQueueStatus A

-- `wake`: registration has validated the waiter, so a failure to wake it is a panic.
unfoldable pub wake : Kernel → Option Ptr → Result Kernel
wake k none = done k
wake k (some p) = do
  (k', woken) ← wake_waiter k p
  elim woken [ ok _ ↦ done (request_context_switch k') | err _ ↦ stopped invalid_waiter ]

abbrev pub is_running : ThreadState → Bool
is_running ready = false
is_running running = true
is_running waiting = false
is_running suspended = false

-- Which of the two trees a blocked call joins.
pub data Side : Type 0 where
  send_side receive_side : Side

abbrev pub wait_type : Side → SyncType
wait_type send_side = message_queue_send
wait_type receive_side = message_queue_receive

module _ {T : Type 0} where
  unfoldable pub try_send : Kernel → MessageQueue T → T → Result (Outcome T (Unit {0}))
  try_send k q message =
      if is_full q.ring
      then done (k, q, err full)
      else let (waiter, receivers) = pop_waiting_thread k q.receivers in
        let q' = record q { ring = write q.ring message; receivers = receivers } in
        wake k waiter >>= λ k'. done (k', q', ok tt)

  -- The message is the slot at the head.
  unfoldable pub try_receive : Kernel → MessageQueue T → Result (Outcome T (Option T))
  try_receive k q =
      if is_empty q.ring
      then done (k, q, err empty)
      else let (message, ring) = read q.ring in
        let (waiter, senders) = pop_waiting_thread k q.senders in
        let q' = record q { ring = ring; senders = senders } in
        wake k waiter >>= λ k'. done (k', q', ok message)

  abbrev pub waiters_of : Side → MessageQueue T → WaitTree
  waiters_of send_side q = q.senders
  waiters_of receive_side q = q.receivers

  abbrev pub set_waiters : Side → MessageQueue T → WaitTree → MessageQueue T
  set_waiters send_side q w = record q { senders = w }
  set_waiters receive_side q w = record q { receivers = w }

  unfoldable pub block_thread : Kernel → MessageQueue T → Side → Ptr → Result (Outcome T (Unit {0}))
  block_thread k q side p = do
    (k', blocked) ← block_current_thread k p (wait_type side)
    elim blocked [
      | err x ↦ done (k', q, err (wait_queue x))
      | ok deadline_at ↦ do
        (r, w) ← insert_sync_waiter k' (waiters_of side q) p deadline_at
        done (request_context_switch r, set_waiters side q w, ok tt)
    ]

  unfoldable pub block : Kernel → MessageQueue T → Side → Bool → Result (Outcome T (Unit {0}))
  block k q side can_block = elim k.current_thread_ctx [
    | none ↦ done (k, q, err no_current_thread)
    | some p ↦
        if not can_block || not (is_running (state k p)) || is_idle_kind (kind k p)
        then done (k, q, err invalid_context)
        else block_thread k q side p
  ]

  -- One critical section of `send_with_wait`: `ok true` if the message was sent, `ok false` if the
  -- thread was blocked and will retry.
  unfoldable pub send_attempt : Kernel → MessageQueue T → T → Bool → Result (Outcome T Bool)
  send_attempt k q message can_block = do
    (k', q', sent) ← try_send k q message
    elim sent [
      | ok _ ↦ done (k', q', ok true)
      | err full ↦ do
        (r, b, blocked) ← block k' q' send_side can_block
        done (r, b, (elim blocked [ ok _ ↦ ok false | err x ↦ err x ]))
      | err x ↦ done (k', q', err x)
    ]

  -- One critical section of `receive_with_wait`.
  unfoldable pub receive_attempt :
      Kernel → MessageQueue T → Bool → Result (Outcome T (Option (Option T)))
  receive_attempt k q can_block = do
    (k', q', received) ← try_receive k q
    elim received [
      | ok message ↦ done (k', q', ok (some message))
      | err empty ↦ do
        (r, b, blocked) ← block k' q' receive_side can_block
        done (r, b, (elim blocked [ ok _ ↦ ok none | err x ↦ err x ]))
      | err x ↦ done (k', q', err x)
    ]

  -- The loop of `send_with_wait`. What other threads do while this one is blocked, until it runs
  -- again, is a function of the environment for each round.
  unfoldable pub send_with_wait :
      List (Kernel → MessageQueue T → Kernel × MessageQueue T)
      → Kernel
      → MessageQueue T
      → T
      → Bool
      → Result (Outcome T (Unit {0}))
  send_with_wait [] k q message can_block = stopped out_of_fuel
  send_with_wait (wait ∷ rest) k q message can_block = send_attempt k q message can_block >>= λ r.
      elim r.2 [
        | err x ↦ done (r.0, r.1, err x)
        | ok true ↦ done (r.0, r.1, ok tt)
        | ok false ↦ let w = wait r.0 r.1 in send_with_wait rest w.0 w.1 message can_block
      ]

  -- The loop of `receive_with_wait`.
  unfoldable pub receive_with_wait :
      List (Kernel → MessageQueue T → Kernel × MessageQueue T)
      → Kernel
      → MessageQueue T
      → Bool
      → Result (Outcome T (Option T))
  receive_with_wait [] k q can_block = stopped out_of_fuel
  receive_with_wait (wait ∷ rest) k q can_block = receive_attempt k q can_block >>= λ r. elim r.2 [
    | err x ↦ done (r.0, r.1, err x)
    | ok (some message) ↦ done (r.0, r.1, ok message)
    | ok none ↦ let w = wait r.0 r.1 in receive_with_wait rest w.0 w.1 can_block
  ]
