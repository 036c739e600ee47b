-- ===== src/Tests/Blocking.antt =====
-- The theorems on semaphores, the mutex and the message queue, at a concrete board.
use rtsched.Base.{
  ℕ, ◌≡◌, ◌≤◌, ◌+◌, true, false, none, some, [], ◌∷◌, arith, All, refl, length, ◌∈◌, inl,
}
use rtsched.SyncType.{counting_semaphore}
use rtsched.Kernel.{done, ReturnsIf, Returns}
use rtsched.Thread.{is_blocked}
use rtsched.Kernel.Access.{state}
use rtsched.Sync.{insert_sync_waiter, pop_waiting_thread}
use rtsched.Sync.Waiters.{IsOrdered, deadline, insert_sync_waiter_lem, pop_waiting_thread_lem}
use rtsched.Sync.Semaphore.{Semaphore, take, give, new_counting}
use rtsched.Sync.Semaphore.Tokens.{
  IsValid, run-conserves, take-IsValid, give-IsValid, new_counting-IsValid,
}
use rtsched.Sync.Semaphore.Tokens
use rtsched.Sync.Semaphore.Liveness.{gives, AllWoken, gives-AllWoken}
use rtsched.Sync.Mutex.{MutexState, lock, unlock_guard}
use rtsched.Sync.Mutex.Owner.{IsReleased, lock-owner, unlock-owner}
use rtsched.Ring.{Ring}
use rtsched.Ring.Fifo.{Holds}
use rtsched.Message.{MessageQueue}
use rtsched.Message.Refine
use rtsched.Message.Refine.{sends, receives, sent, received, run-fifo_run}
use rtsched.Tests.Board.{board}

-- Two tokens of three; and none, with the blocked threads 4 and 5 waiting.
abbrev two_tokens : Semaphore
two_tokens = record { kind = counting_semaphore; count = 2; max_count = 3; waiters = [] }

abbrev waited_for : Semaphore
waited_for = record { kind = counting_semaphore; count = 0; max_count = 3; waiters = 5 ∷ 4 ∷ [] }

waited_for-IsValid : IsValid waited_for
waited_for-IsValid = record { bounded = omega arith; quiet = inl refl }

run-conserves_example :
    let (t, taken, given) = Tokens.run two_tokens (true ∷ false ∷ false ∷ false ∷ []) in
    (t.count + taken ≡ 2 + given) × (t.count ≤ t.max_count) × (t.max_count ≡ 3)
run-conserves_example = run-conserves two_tokens (true ∷ false ∷ false ∷ false ∷ []) (omega arith)

take-IsValid_example : ReturnsIf false (λ o. IsValid o.1) (take board waited_for)
take-IsValid_example = take-IsValid board waited_for waited_for-IsValid

give-IsValid_example : ReturnsIf false (λ o. IsValid o.1) (give board waited_for)
give-IsValid_example = give-IsValid board waited_for (refl, (refl, tt)) waited_for-IsValid

-- Thread 4 is of the CFS class, thread 5 is not.
abbrev two_waiting : Semaphore
two_waiting = record { kind = counting_semaphore; count = 0; max_count = 3; waiters = 4 ∷ 5 ∷ [] }

gives-AllWoken_example :
    Returns (AllWoken board two_waiting (4 ∷ []) (5 ∷ [])) (gives 1 board two_waiting)
gives-AllWoken_example =
    gives-AllWoken (4 ∷ []) (5 ∷ []) board two_waiting refl (refl, tt) (refl, tt) (refl, tt) refl

insert_sync_waiter_lem_example :
    Returns
      (λ r. IsOrdered r.0 r.1 × (deadline r.0 2 ≡ 35) × (2 ∈ r.1) × (length r.1 ≡ 3))
      (insert_sync_waiter board (5 ∷ 4 ∷ []) 2 35)
insert_sync_waiter_lem_example =
    insert_sync_waiter_lem board (5 ∷ 4 ∷ []) 2 35 refl refl ((refl, tt), (tt, tt))

board-pops : (pop_waiting_thread board (5 ∷ 4 ∷ [])).0 ≡ some 5
unfolding pop_waiting_thread
board-pops = refl

pop_waiting_thread_lem_example :
    (5 ∷ 4 ∷ [] ≡ 5 ∷ (pop_waiting_thread board (5 ∷ 4 ∷ [])).1)
    × (is_blocked (state board 5) ≡ true)
    × All (λ q. deadline board 5 ≤ deadline board q) (pop_waiting_thread board (5 ∷ 4 ∷ [])).1
    × IsOrdered board (pop_waiting_thread board (5 ∷ 4 ∷ [])).1
pop_waiting_thread_lem_example =
    pop_waiting_thread_lem board (5 ∷ 4 ∷ []) 5 ((refl, tt), (tt, tt)) board-pops

-- Owned by the current thread, with 5 and 4 waiting; and owned by another one.
abbrev mine : MutexState
mine = record {
  owner = some 2;
  waiters = 5 ∷ 4 ∷ [];
  owner_original_deadline_at = 120;
  owner_boosted = true;
}

abbrev theirs : MutexState
theirs = record {
  owner = some 3;
  waiters = [];
  owner_original_deadline_at = 0;
  owner_boosted = false;
}

lock-owner_example : ReturnsIf false (λ r. r.1.owner ≡ some 3) (lock board theirs)
lock-owner_example = lock-owner board theirs 2 refl

-- Owned by the current thread and not boosted, with the CFS thread 4 waiting first.
abbrev plain : MutexState
plain = record mine { waiters = 4 ∷ 5 ∷ []; owner_boosted = false }

unlock-owner_example : ReturnsIf true (λ r. IsReleased (4 ∷ 5 ∷ []) r.1) (unlock_guard board plain)
unlock-owner_example = unlock-owner board plain 2 refl refl (refl, (refl, tt))

boosted_owner : ReturnsIf false (λ r. IsReleased (5 ∷ 4 ∷ []) r.1) (unlock_guard board mine)
boosted_owner = unlock-owner board mine 2 refl refl (refl, (refl, tt))

-- A ring of two slots that holds one message, in the last slot.
abbrev ring : Ring ℕ
ring = record { capacity = 2; slots = none ∷ some 7 ∷ []; head = 1; len = 1 }

abbrev messages : MessageQueue ℕ
messages = record { ring = ring; senders = []; receivers = [] }

ring-Holds : Holds ring (7 ∷ [])
ring-Holds = record {
  slots_len = refl;
  head_in = omega arith;
  len_in = omega arith;
  count = refl;
  held = (refl, tt);
}

run-fifo_run_example :
    Refine.run board messages (sends 8 ∷ sends 9 ∷ receives ∷ receives ∷ receives ∷ [])
    ≡ done (Refine.fifo_run 2 (7 ∷ []) (sends 8 ∷ sends 9 ∷ receives ∷ receives ∷ receives ∷ []))
run-fifo_run_example =
    run-fifo_run board messages (7 ∷ []) (sends 8 ∷ sends 9 ∷ receives ∷ receives ∷ receives ∷ [])
      ring-Holds refl refl

accepted : new_counting 3 2 ≡ some two_tokens
unfolding new_counting
accepted = refl
