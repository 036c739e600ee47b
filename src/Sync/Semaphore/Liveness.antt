-- ===== src/Sync/Semaphore/Liveness.antt =====
-- What a sequence of gives does for the threads that wait at a semaphore.
use rtsched.Base.{
  ℕ, zero, suc, Ptr, true, false, Option, none, some, List, [], ◌∷◌, ◌++◌, ◌≡◌, refl, sym, ap, ◌∙◌,
  subst, length, All, All-mem, All-of_mem, IsDistinct, ◌∈◌, ◌∉◌, Bool-cases, inl, inr, ◌==◌, arith,
}
use rtsched.Thread.{ready, is_blocked, cfs}
use rtsched.Kernel.{
  Kernel, Result, done, ◌>>=◌, Returns, Returns->>=, Returns-imp, ok, err, Except, WaitQueueError,
}
use rtsched.Kernel.Access.{state, kind, request_context_switch}
use rtsched.Sync.{WaitTree, wake_waiter, pop_waiting_thread}
use rtsched.Sync.Semaphore.{Semaphore, give, give_token, Outcome, wait_queue}
use rtsched.Sync.Semaphore.Tokens.{AreBlocked}
use rtsched.Sync.Semaphore.Handover.{is_calm, IsWoken, wake_waiter-IsWoken}

-- A thread gives a number of times.
unfoldable pub gives : ℕ → Kernel → Semaphore → Result (Kernel × Semaphore)
unfolding give
gives zero k s = done (k, s)
gives (suc n) k s = give k s >>= λ o. gives n o.0 o.1

-- The semaphore hands its token to `p` and keeps the other waiters.
record HandsOver (k : Kernel) (s : Semaphore) (p : Ptr) (rest : List Ptr) (o : Outcome)
    : Type 0 where
  waiters : o.1.waiters ≡ rest
  count : o.1.count ≡ s.count
  woken : IsWoken k o.0 p

-- `give` for what it pops.
given : Kernel → Semaphore → Option Ptr × WaitTree → Result Outcome
given k s x =
    let s' = record s { waiters = x.1 } in
    elim x.0 [
      | none ↦ let (s'', r) = give_token s' in done (k, s'', r)
      | some p ↦ do
        (k', woken) ← wake_waiter k p
        done (elim woken [
          | ok _ ↦ (request_context_switch k', s', ok tt)
          | err x ↦ (k', s', err (wait_queue x))
        ])
    ]

pop_waiting_thread-blocked :
    (k : Kernel) (p : Ptr) (rest : WaitTree)
    → is_blocked (state k p) ≡ true
    → pop_waiting_thread k (p ∷ rest) ≡ (some p, rest)
unfolding pop_waiting_thread
pop_waiting_thread-blocked k p rest b = rw b refl

give-HandsOver :
    (k : Kernel) (s : Semaphore) (p : Ptr) (rest : List Ptr)
    → s.waiters ≡ p ∷ rest
    → is_blocked (state k p) ≡ true
    → kind k p ≡ cfs
    → is_calm k ≡ true
    → Returns (HandsOver k s p rest) (give k s)
unfolding give given
give-HandsOver k s p rest e b h c =
    let popped = ap (pop_waiting_thread k) e ∙ pop_waiting_thread-blocked k p rest b in
    let s' = record s { waiters = rest } in
    let finish : Kernel × Except WaitQueueError (Unit {0}) → Outcome = λ w. elim w.1 [
      | ok _ ↦ (request_context_switch w.0, s', ok tt)
      | err x ↦ (w.0, s', err (wait_queue x))
    ] in
    let hands : Except WaitQueueError (Unit {0}) → Kernel → Type 0 =
      λ r k'. HandsOver k s p rest (finish (k', r)) in
    subst (λ x. Returns (HandsOver k s p rest) (given k s x)) (sym popped)
      (Returns->>= (λ w. (w.1 ≡ ok tt) × IsWoken k w.0 p) (HandsOver k s p rest) (wake_waiter k p)
        (λ w. done (finish w)) (wake_waiter-IsWoken k p h c)
        λ w d.
          subst (λ r. hands r w.0) (sym d.0)
            (record {
              waiters = refl;
              count = refl;
              woken = record {
                woken = d.1.woken;
                others = d.1.others;
                kinds = d.1.kinds;
                calm = d.1.calm;
              };
            }))

ne_of_out : (q p : Ptr) (ws : List Ptr) → q ∈ ws → p ∉ ws → (q == p) ≡ false
ne_of_out q p ws m out = elim (Bool-cases (q == p)) [
  | inr i ↦ i
  | inl i ↦
      let same : q ≡ p = ground arith in absurd (ground (arith, subst (λ x. x ∈ ws) same m, out))
]

-- Each of the threads `ws` has been made ready, and every other one keeps its state.
pub record AllWoken (k : Kernel) (s : Semaphore) (ws rest : List Ptr) (r : Kernel × Semaphore)
    : Type 0 where
  pub waiters : r.1.waiters ≡ rest
  pub count : r.1.count ≡ s.count
  pub woken : All (λ p. state r.0 p ≡ ready) ws
  pub others : (q : Ptr) → q ∉ ws → state r.0 q ≡ state k q

-- As long as no timer is due, as many gives as there are threads at the front of the waiters, which
-- are in the order of their deadlines, return and make every one of these threads ready; the others
-- wait on, no token is stored, and no other thread's state changes. The threads are distinct, blocked,
-- and of the CFS class.
pub gives-AllWoken :
    (ws rest : List Ptr) (k : Kernel) (s : Semaphore)
    → s.waiters ≡ ws ++ rest
    → IsDistinct ws
    → AreBlocked k ws
    → All (λ p. kind k p ≡ cfs) ws
    → is_calm k ≡ true
    → Returns (AllWoken k s ws rest) (gives (length ws) k s)
unfolding gives
gives-AllWoken [] rest k s e d b h c = record {
  waiters = e;
  count = refl;
  woken = tt;
  others = λ q o. refl;
}
gives-AllWoken (p ∷ ws) rest k s e d b h c =
    Returns->>= (HandsOver k s p (ws ++ rest)) (AllWoken k s (p ∷ ws) rest) (give k s) _
      (give-HandsOver k s p (ws ++ rest) e b.0 h.0 c)
      λ o g.
        let other : (q : Ptr) → q ∈ ws → (q == p) ≡ false = λ q m. ne_of_out q p ws m d.0 in
        let blocked =
          All-of_mem (λ q. is_blocked (state o.0 q) ≡ true) ws
            λ q m.
              ap is_blocked (g.woken.others q (other q m))
              ∙ All-mem (λ q. is_blocked (state k q) ≡ true) q ws b.1 m in
        let kinds =
          All-of_mem (λ q. kind o.0 q ≡ cfs) ws
            λ q m. g.woken.kinds q ∙ All-mem (λ q. kind k q ≡ cfs) q ws h.1 m in
        Returns-imp
          (λ r w. record {
            waiters = w.waiters;
            count = w.count ∙ g.count;
            woken = (w.others p d.0 ∙ g.woken.woken, w.woken);
            others =
                λ q out. w.others q (ground (arith, out)) ∙ g.woken.others q (ground (arith, out));
          })
          (gives (length ws) o.0 o.1)
          (gives-AllWoken ws rest o.0 o.1 g.waiters d.1 blocked kinds g.woken.calm)
