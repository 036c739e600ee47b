-- ===== src/Sync/Semaphore/Tokens.antt =====
-- What the semaphores of src/sync.rs do with their tokens.
use rtsched.Base.{
  not, is_nil, ℕ, ◌+◌, ◌-◌, ◌≤◌, ◌<◌, ◌≡◌, refl, ◌⊎◌, inl, inr, some, List, [], ◌∷◌, Bool, true,
  false, ltb, ◌==◌, if◌then◌else◌, arith, All, Bool-cases, Option-cases,
}
use rtsched.Thread.{is_blocked}
use rtsched.Kernel.{
  ReturnsIf, Kernel, Result, done, ◌>>=◌, ok, err, Ensures, Ensures->>=, Ensures-of,
}
use rtsched.Kernel.Access.{state, request_context_switch}
use rtsched.Sync.{WaitTree, pop_waiting_thread, wake_waiter, block_current_thread_on}
use rtsched.Sync.Semaphore.{
  Semaphore, full, wait_queue, try_take, take, take_blocking, give, give_token, Outcome,
  new_counting,
}

-- No more tokens than the semaphore holds, and none while a thread waits for one.
pub record IsValid (s : Semaphore) : Type 0 where
  pub bounded : s.count ≤ s.max_count
  pub quiet : (s.count ≡ 0) ⊎ (s.waiters ≡ [])

abbrev pub AreBlocked : Kernel → WaitTree → Type 0
AreBlocked k ws = All (λ p. is_blocked (state k p) ≡ true) ws

-- A semaphore that `new_counting` accepts holds the initial tokens, at most its maximum, which is
-- not 0, and no thread waits for it.
pub new_counting-IsValid :
    (max_count initial_count : ℕ) {s : Semaphore}
    → new_counting max_count initial_count ≡ some s
    → IsValid s × (s.count ≡ initial_count) × (0 < s.max_count) × (s.waiters ≡ [])
unfolding new_counting
new_counting-IsValid max_count initial_count h = ground arith

try_take-IsValid : (s : Semaphore) → IsValid s → IsValid (try_take s).0
unfolding try_take
try_take-IsValid s v = ground arith

-- What `give` does, by the waiters that it finds.
abbrev pub give_spec : Kernel → Semaphore → WaitTree → Result Outcome
give_spec k s [] =
    if ltb s.count s.max_count
    then done (k, record s { count = s.count + 1 }, ok tt)
    else done (k, s, err full)
give_spec k s (p ∷ rest) =
    let s' = record s { waiters = rest } in
    wake_waiter k p >>= λ w. done (elim w.1 [
      | ok _ ↦ (request_context_switch w.0, s', ok tt)
      | err x ↦ (w.0, s', err (wait_queue x))
    ])

give-give_spec :
    (k : Kernel) (s : Semaphore) (ws : WaitTree)
    → s.waiters ≡ ws
    → AreBlocked k ws
    → give k s ≡ give_spec k s ws
unfolding give pop_waiting_thread give_token
give-give_spec k s [] e b = ground arith
give-give_spec k s (p ∷ rest) e b = ground arith

-- With a blocked thread waiting, `give` hands the token on: the count stays, and the waiter at the
-- head, which has the earliest deadline, leaves the tree and is woken. With no thread waiting the
-- token is stored, unless the semaphore is full.
pub give_lem :
    (k : Kernel) (s : Semaphore) → AreBlocked k s.waiters → give k s ≡ give_spec k s s.waiters
give_lem k s b = give-give_spec k s s.waiters refl b

-- A token that is there is taken at once, and the globals do not change.
pub take-of_pos :
    (k : Kernel) (s : Semaphore)
    → 0 < s.count
    → take k s ≡ done (k, record s { count = s.count - 1 }, ok tt)
unfolding take try_take
take-of_pos k s h = ground arith

take-of_zero : (k : Kernel) (s : Semaphore) → s.count ≡ 0 → take k s ≡ take_blocking k s
unfolding take try_take
take-of_zero k s h = ground arith

give_spec-IsValid :
    (k : Kernel) (s : Semaphore) (ws : WaitTree)
    → s.waiters ≡ ws
    → IsValid s
    → Ensures (λ o. IsValid o.1) (give_spec k s ws)
give_spec-IsValid k s [] e v = ground (arith, v.bounded)
give_spec-IsValid k s (p ∷ rest) e v =
    Ensures->>= (λ _. Unit {0}) (λ o. IsValid o.1) (wake_waiter k p) _
      (Ensures-of _ (wake_waiter k p) λ _. tt) λ w _. ground (arith, v.bounded, v.quiet)

take_blocking-IsValid :
    (k : Kernel) (s : Semaphore) → s.count ≡ 0 → Ensures (λ o. IsValid o.1) (take_blocking k s)
unfolding take_blocking
take_blocking-IsValid k s z = elim (Option-cases k.current_thread_ctx) [
  | inl e ↦ rw (e, take_blocking) (ground arith)
  | inr (p, e) ↦
      rw (e, take_blocking)
        (Ensures->>= (λ _. Unit {0}) (λ o. IsValid o.1)
          (block_current_thread_on k s.waiters s.kind p) _ (Ensures-of _ _ λ _. tt)
          λ r _. ground arith)
]

-- `take` returns if there is a token. When it returns, with a token or with the thread blocked, there
-- are at most `max_count` tokens, and none while a thread waits, if that was so before.
pub take-IsValid :
    (k : Kernel) (s : Semaphore)
    → IsValid s
    → ReturnsIf (not (s.count == 0)) (λ o. IsValid o.1) (take k s)
take-IsValid k s v = elim (Bool-cases (s.count == 0)) [
  | inl e ↦
      let z : s.count ≡ 0 = ground arith in rw (take-of_zero k s z, e) (take_blocking-IsValid k s z)
  | inr e ↦ rw (take-of_pos k s (ground arith), e) (ground (arith, v.bounded, v.quiet))
]

waited_give :
    (k : Kernel) (s : Semaphore) (ws : WaitTree)
    → s.waiters ≡ ws
    → IsValid s
    → ReturnsIf (is_nil ws) (λ o. IsValid o.1) (give_spec k s ws)
waited_give k s [] e v = ground (arith, v.bounded)
waited_give k s (p ∷ rest) e v = give_spec-IsValid k s (p ∷ rest) e v

-- `give` returns if no thread waits. When it returns, there are at most `max_count` tokens, and none
-- while a thread waits, if that was so before and the waiters were blocked.
pub give-IsValid :
    (k : Kernel) (s : Semaphore)
    → AreBlocked k s.waiters
    → IsValid s
    → ReturnsIf (is_nil s.waiters) (λ o. IsValid o.1) (give k s)
give-IsValid k s b v = rw (give_lem k s b) (waited_give k s s.waiters refl v)

-- Nonblocking calls of a client: `true` takes, `false` gives.
pub run : Semaphore → List Bool → Semaphore × ℕ × ℕ
unfolding try_take give_token
run s [] = (s, 0, 0)
run s (true ∷ cs) =
    let (s', r) = try_take s in
    let (t, taken, given) = run s' cs in
    elim r [ ok _ ↦ (t, taken + 1, given) | err _ ↦ (t, taken, given) ]
run s (false ∷ cs) =
    let (s', r) = give_token s in
    let (t, taken, given) = run s' cs in
    elim r [ ok _ ↦ (t, taken, given + 1) | err _ ↦ (t, taken, given) ]

-- Whatever the order of takes and of gives that find no waiter, tokens are conserved: those left
-- and those taken make up the first ones and those given; and there are never too many.
pub run-conserves :
    (s : Semaphore) (cs : List Bool)
    → s.count ≤ s.max_count
    → let (t, taken, given) = run s cs in
      (t.count + taken ≡ s.count + given) × (t.count ≤ t.max_count) × (t.max_count ≡ s.max_count)
unfolding run
run-conserves s [] h = omega arith
run-conserves s (true ∷ cs) h = ground (arith, run-conserves (try_take s).0 cs)
run-conserves s (false ∷ cs) h = ground (arith, run-conserves (give_token s).0 cs)
