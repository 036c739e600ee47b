-- ===== src/Sync/Semaphore.antt =====
-- The binary and the counting semaphore of src/sync.rs. A call takes the globals and the semaphore
-- and returns both with its result.
pub mod Tokens
pub mod Handover
pub mod Liveness
use rtsched.Base.{ℕ, ◌+◌, ◌-◌, Bool, Option, none, some, [], ltb, leb, ◌==◌, if◌then◌else◌}
use rtsched.SyncType.{SyncType, binary_semaphore, counting_semaphore}
use rtsched.Kernel.{Kernel, Result, done, ◌>>=◌, Except, ok, err, WaitQueueError}
use rtsched.Kernel.Access.{request_context_switch}
use rtsched.Sync.{WaitTree, block_current_thread_on, pop_waiting_thread, wake_waiter}

pub data SemaphoreError : Type 0 where
  would_block full no_current_thread : SemaphoreError
  wait_queue : WaitQueueError → SemaphoreError

-- `BinarySemaphoreState` and `CountingSemaphoreState`: the binary one holds at most one token.
pub record Semaphore : Type 0 where
  pub kind : SyncType
  pub count : ℕ
  pub max_count : ℕ
  pub waiters : WaitTree

abbrev pub new_binary : Bool → Semaphore
new_binary available = record {
  kind = binary_semaphore;
  count = if available then 1 else 0;
  max_count = 1;
  waiters = [];
}

-- The two assertions of `CountingSemaphore::new`.
unfoldable pub new_counting : ℕ → ℕ → Option Semaphore
new_counting max_count initial_count =
    if max_count == 0
    then none
    else if leb initial_count max_count
    then some (record {
      kind = counting_semaphore;
      count = initial_count;
      max_count = max_count;
      waiters = [];
    })
    else none

-- `decrement_word_if_positive` and `increment_word_if_below` of an atomic word.
unfoldable pub decrement_word_if_positive : ℕ → Option ℕ
decrement_word_if_positive word = if word == 0 then none else some (word - 1)

unfoldable pub increment_word_if_below : ℕ → ℕ → Option ℕ
increment_word_if_below word max = if ltb word max then some (word + 1) else none

unfoldable pub try_take : Semaphore → Semaphore × Except SemaphoreError (Unit {0})
unfolding decrement_word_if_positive
try_take s = elim (decrement_word_if_positive s.count) [
  | some word ↦ (record s { count = word }, ok tt)
  | none ↦ (s, err would_block)
]

abbrev pub Outcome : Type 0
Outcome = Kernel × Semaphore × Except SemaphoreError (Unit {0})

-- The thread blocks; `?` turns a refusal into the semaphore's error.
unfoldable pub take_blocking : Kernel → Semaphore → Result Outcome
take_blocking k s = elim k.current_thread_ctx [
  | none ↦ done (k, s, err no_current_thread)
  | some p ↦ do
    (k', waiters, blocked) ← block_current_thread_on k s.waiters s.kind p
    done (
      k',
      record s { waiters = waiters },
      (elim blocked [ ok _ ↦ ok tt | err x ↦ err (wait_queue x) ]),
    )
]

-- The critical section tries the word a second time: nothing comes between in this model.
unfoldable pub take : Kernel → Semaphore → Result Outcome
take k s =
    let (s', first) = try_take s in
    elim first [
      | ok _ ↦ done (k, s', ok tt)
      | err _ ↦
          let (s'', second) = try_take s' in
          elim second [ ok _ ↦ done (k, s'', ok tt) | err _ ↦ take_blocking k s'' ]
    ]

unfoldable pub give_token : Semaphore → Semaphore × Except SemaphoreError (Unit {0})
unfolding increment_word_if_below
give_token s = elim (increment_word_if_below s.count s.max_count) [
  | some word ↦ (record s { count = word }, ok tt)
  | none ↦ (s, err full)
]

unfoldable pub give : Kernel → Semaphore → Result Outcome
give k s =
    let (popped, waiters) = pop_waiting_thread k s.waiters in
    let s' = record s { waiters = waiters } in
    elim popped [
      | none ↦ let (s'', r) = give_token s' in done (k, s'', r)
      | some p ↦ do
        (k', woken) ← wake_waiter k p
        done (elim woken [
          | ok _ ↦ (request_context_switch k', s', ok tt)
          | err x ↦ (k', s', err (wait_queue x))
        ])
    ]
