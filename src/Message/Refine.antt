-- ===== src/Message/Refine.antt =====
-- Nonblocking sends and receives of src/message.rs against a bounded queue.
use rtsched.Base.{
  ℕ, ◌≡◌, ◌≢◌, refl, Option, some, List, [], ◌∷◌, ◌++◌, true, false, ◌==◌, if◌then◌else◌, arith,
  length, Bool-cases, inl, inr,
}
use rtsched.Kernel.{Kernel, Result, done, ◌>>=◌, Except, ok, err}
use rtsched.Sync.{pop_waiting_thread}
use rtsched.Ring.{write, read}
use rtsched.Ring.Fifo.{Holds, Holds-write, Holds-read, capacity-write, capacity-read}
use rtsched.Message.{MessageQueue, MessageQueueStatus, full, empty, try_send, try_receive, wake}

module _ {T : Type 0} where
  -- A full queue refuses a message and changes nothing. Otherwise the message goes to the back, the
  -- earliest-deadline receiver leaves its tree and is woken, and the senders stay.
  pub try_send_lem :
      (k : Kernel) (q : MessageQueue T) (m : T) (ms : List T)
      → Holds q.ring ms
      → let (waiter, rest) = pop_waiting_thread k q.receivers in
        let q' = record q { ring = write q.ring m; receivers = rest } in
        try_send k q m ≡ (
          if length ms == q.ring.capacity
          then done (k, q, err full)
          else (wake k waiter >>= λ k'. done (k', q', ok tt)))
  unfolding try_send
  try_send_lem k q m ms v = ground (arith, v.count)

  -- An empty queue has nothing to give and does not change. Otherwise the oldest message is taken,
  -- the earliest-deadline sender leaves its tree and is woken, and the receivers stay.
  pub try_receive_lem :
      (k : Kernel) (q : MessageQueue T) (ms : List T)
      → Holds q.ring ms
      → let (waiter, rest) = pop_waiting_thread k q.senders in
        let q' = record q { ring = (read q.ring).1; senders = rest } in
        try_receive k q ≡ (elim ms [
          | [] ↦ done (k, q, err empty)
          | m ∷ _ ↦ wake k waiter >>= λ k'. done (k', q', ok (some m))
        ])
  unfolding try_receive
  try_receive_lem k q [] v = ground (arith, v.count)
  try_receive_lem k q (m ∷ ms) v = ground (arith, v.count, Holds-read q.ring m ms v)

pub data Call (T : Type 0) : Type 0 where
  sends : T → Call T
  receives : Call T

pub data Reply (T : Type 0) : Type 0 where
  sent : Except MessageQueueStatus (Unit {0}) → Reply T
  received : Except MessageQueueStatus (Option T) → Reply T

module _ {T : Type 0} where
  -- What a client sees of a sequence of nonblocking calls.
  pub run : Kernel → MessageQueue T → List (Call T) → Result (List (Reply T))
  unfolding try_send try_receive
  run k q [] = done []
  run k q (sends m ∷ cs) =
      try_send k q m >>= λ r. run r.0 r.1 cs >>= λ replies. done (sent r.2 ∷ replies)
  run k q (receives ∷ cs) =
      try_receive k q >>= λ r. run r.0 r.1 cs >>= λ replies. done (received r.2 ∷ replies)

  -- The same calls on a queue of at most `size` messages.
  pub fifo_run : ℕ → List T → List (Call T) → List (Reply T)
  fifo_run size ms [] = []
  fifo_run size ms (sends m ∷ cs) = elim (length ms == size) [
    | true ↦ sent (err full) ∷ fifo_run size ms cs
    | false ↦ sent (ok tt) ∷ fifo_run size (ms ++ (m ∷ [])) cs
  ]
  fifo_run size [] (receives ∷ cs) = received (err empty) ∷ fifo_run size [] cs
  fifo_run size (m ∷ ms) (receives ∷ cs) = received (ok (some m)) ∷ fifo_run size ms cs

  idle_send :
      (k : Kernel) (q : MessageQueue T) (m : T) (ms : List T)
      → Holds q.ring ms
      → q.receivers ≡ []
      → length ms ≢ q.ring.capacity
      → try_send k q m
        ≡ done (k, record { ring = write q.ring m; senders = q.senders; receivers = [] }, ok tt)
  unfolding pop_waiting_thread wake
  idle_send k q m ms v r ne = ground (arith, try_send_lem k q m ms v)

  idle_receive :
      (k : Kernel) (q : MessageQueue T) (m : T) (ms : List T)
      → Holds q.ring (m ∷ ms)
      → q.senders ≡ []
      → try_receive k q
        ≡ done (
          k,
          record { ring = (read q.ring).1; senders = []; receivers = q.receivers },
          ok (some m),
        )
  unfolding pop_waiting_thread wake
  idle_receive k q m ms v s = ground (arith, try_receive_lem k q (m ∷ ms) v)

  -- While no thread is blocked on the queue, each call returns, and no sequence of nonblocking calls
  -- tells the ring of slots from the bounded queue of the messages that it holds.
  pub run-fifo_run :
      (k : Kernel) (q : MessageQueue T) (ms : List T) (cs : List (Call T))
      → Holds q.ring ms
      → q.senders ≡ []
      → q.receivers ≡ []
      → run k q cs ≡ done (fifo_run q.ring.capacity ms cs)
  unfolding run fifo_run
  run-fifo_run k q ms [] v s r = refl
  run-fifo_run k q ms (sends m ∷ cs) v s r = elim (Bool-cases (length ms == q.ring.capacity)) [
    | inl at_limit ↦ ground (arith, try_send_lem k q m ms v, run-fifo_run k q ms cs v s r)
    | inr room ↦
        let ne : length ms ≢ q.ring.capacity = ground arith in
        let q' : MessageQueue T = record {
          ring = write q.ring m;
          senders = q.senders;
          receivers = [];
        } in
        let rest =
          run-fifo_run k q' (ms ++ (m ∷ [])) cs
            (Holds-write q.ring ms m v (ground (arith, v.count))) s refl in
        ground (arith, idle_send k q m ms v r ne, rest, capacity-write q.ring m)
  ]
  run-fifo_run k q [] (receives ∷ cs) v s r =
      ground (arith, try_receive_lem k q [] v, run-fifo_run k q [] cs v s r)
  run-fifo_run k q (m ∷ ms) (receives ∷ cs) v s r =
      let q' : MessageQueue T = record {
        ring = (read q.ring).1;
        senders = [];
        receivers = q.receivers;
      } in
      let rest = run-fifo_run k q' ms cs (Holds-read q.ring m ms v).1 refl r in
      ground (arith, idle_receive k q m ms v s, rest, capacity-read q.ring)
