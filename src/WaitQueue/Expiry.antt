-- ===== src/WaitQueue/Expiry.antt =====
-- The finite waits of src/waitq.rs: their order, and which of them expires.
use rtsched.Base.{
  ℕ, ◌≤◌, ◌<◌, ◌+◌, ◌≡◌, refl, Ptr, Option, none, some, List, [], ◌∷◌, All, All-imp, leb, min,
  arith, Ordering, Option-cases, inl, inr, compare, u32_max, u64_max,
}
use rtsched.Tree.Order.{IsSorted, IsStrict}
use rtsched.SyncType.{cmp_waitevt, cmp_sync, wait_event, SyncType}
use rtsched.Thread.{Thread, WaitEntity}
use rtsched.Kernel.{Kernel}
use rtsched.WaitQueue.{
  cmp_wait, pop_expired_wait_thread, is_expired_at, remaining_at, set_wake_after,
}

abbrev pub wake_at : Kernel → Ptr → ℕ
wake_at k p = (k.threads p).wait_entity.wake_at

cmp_wait-le :
    (threads : Ptr → Thread) (p : Ptr) (ps : List Ptr)
    → All (λ q. cmp_wait threads p q ≡ Ordering.lt) ps
    → All (λ q. (threads p).wait_entity.wake_at ≤ (threads q).wait_entity.wake_at) ps
unfolding cmp_wait
cmp_wait-le threads p ps h = All-imp (λ q g. ground arith) ps h

-- The event's place in the order, as a number.
rank : Option SyncType → ℕ
rank none = 0
rank (some t) = wait_event t

cmp_waitevt-rank : (a b : Option SyncType) → cmp_waitevt a b ≡ compare (rank a) (rank b)
unfolding rank cmp_waitevt cmp_sync wait_event
cmp_waitevt-rank none none = refl
cmp_waitevt-rank none (some b) = ground arith
cmp_waitevt-rank (some a) none = ground arith
cmp_waitevt-rank (some a) (some b) = refl

rank-injective : (a b : Option SyncType) → rank a ≡ rank b → a ≡ b
unfolding rank wait_event
rank-injective a b h = ground arith

-- The comparison of waits is a strict total order, as the tree needs.
pub cmp_wait-IsStrict : (threads : Ptr → Thread) → IsStrict (cmp_wait threads)
unfolding cmp_wait
cmp_wait-IsStrict threads =
    let evt = λ (a b : Ptr).
      cmp_waitevt-rank (threads a).wait_entity.waitevt (threads b).wait_entity.waitevt in
    record {
      irrefl = λ a. ground (arith, evt a a);
      eq_of_cmp = λ a b h. ground (arith, evt a b, h);
      lt_of_gt = λ a b h. ground (arith, evt a b, evt b a, h);
      gt_of_lt = λ a b h. ground (arith, evt a b, evt b a, h);
      lt_trans = λ a b c h g. ground (arith, evt a b, evt b c, evt a c, h, g);
    }

expired-some :
    (k : Kernel) (now : ℕ) (ws : List Ptr) {p : Ptr} {k' : Kernel}
    → k.wait_queue ≡ ws
    → IsSorted (cmp_wait k.threads) ws
    → pop_expired_wait_thread k now ≡ some (p, k')
    → (ws ≡ p ∷ k'.wait_queue)
      × (wake_at k p ≤ now)
      × All (λ q. wake_at k p ≤ wake_at k q) k'.wait_queue
      × (k'.threads ≡ k.threads)
unfolding pop_expired_wait_thread is_expired_at
expired-some k now [] e s h = ground arith
expired-some k now (q ∷ rest) {p} {k'} e s h =
    let same : q ≡ p = ground arith in
    let left : rest ≡ k'.wait_queue = ground arith in
    let due : wake_at k q ≤ now = ground arith in
    let least = cmp_wait-le k.threads q rest s.0 in
    let threads : k'.threads ≡ k.threads = ground arith in
    rw (← same, ← left) (refl, due, least, threads)

expired-none :
    (k : Kernel) (now : ℕ) (ws : List Ptr)
    → k.wait_queue ≡ ws
    → IsSorted (cmp_wait k.threads) ws
    → pop_expired_wait_thread k now ≡ none
    → All (λ q. now < wake_at k q) ws
unfolding pop_expired_wait_thread is_expired_at
expired-none k now [] e s h = tt
expired-none k now (q ∷ rest) e s h =
    let late : now < wake_at k q = ground arith in
    (late, All-imp (λ r g. omega (arith, late, g)) rest (cmp_wait-le k.threads q rest s.0))

-- What `pop_expired_wait_thread` may return at the time `now`.
abbrev pub IsExpiry : Kernel → ℕ → Option (Ptr × Kernel) → Type 0
IsExpiry k now none = All (λ q. now < wake_at k q) k.wait_queue
IsExpiry k now (some (p, k')) =
    (k.wait_queue ≡ p ∷ k'.wait_queue)
    × (wake_at k p ≤ now)
    × All (λ q. wake_at k p ≤ wake_at k q) k'.wait_queue
    × (k'.threads ≡ k.threads)

-- Of a wait queue in order, `pop_expired_wait_thread` takes out a thread whose wake time has come,
-- the present included, and than which none wakes earlier, and keeps the others; if it takes none,
-- every waiting thread wakes later than the present.
pub pop_expired_wait_thread-IsExpiry :
    (k : Kernel) (now : ℕ)
    → IsSorted (cmp_wait k.threads) k.wait_queue
    → IsExpiry k now (pop_expired_wait_thread k now)
pop_expired_wait_thread-IsExpiry k now s = elim (Option-cases (pop_expired_wait_thread k now)) [
  | inl e ↦ rw e (expired-none k now k.wait_queue refl s e)
  | inr ((p, k'), e) ↦
      let h = expired-some k now k.wait_queue {p = p} {k' = k'} refl s e in
      rw e (h.0, h.1, h.2, h.3)
]

-- A wait of `ticks` from `now` is due once `ticks` have passed, and not before, as long as the
-- clock does not reach its end.
pub set_wake_after-expires :
    (now ticks later : ℕ) (e : WaitEntity)
    → now + ticks ≤ u64_max
    → (is_expired_at later (set_wake_after now ticks e) ≡ leb (now + ticks) later)
      × (remaining_at now (set_wake_after now ticks e) ≡ min ticks u32_max)
unfolding set_wake_after is_expired_at remaining_at
set_wake_after-expires now ticks later e h = ground arith
