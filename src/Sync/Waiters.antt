-- ===== src/Sync/Waiters.antt =====
-- The waiters of a synchronization object of src/sync.rs, in deadline order.
use rtsched.Base.{
  ℕ, ◌+◌, ◌≤◌, ◌≡◌, false, subst, true, Ptr, some, [], ◌∷◌, All, All-of_mem, All-imp, ◌∈◌, ◌∉◌,
  length, arith, Ordering,
}
use rtsched.Tree
use rtsched.Tree.Order.{IsSorted, cmp_key, cmp_key-IsStrict}
use rtsched.Tree.Insert.{has-insert, length-insert, insert-IsSorted}
use rtsched.Tree.Frame.{IsSorted-frame}
use rtsched.Thread.{is_blocked, is_idle}
use rtsched.Kernel.{Kernel, done, Returns}
use rtsched.Kernel.Access.{state, kind, check_entity, set_sync_entity}
use rtsched.Sync.{WaitTree, cmp_sync_entity, insert_sync_waiter, pop_waiting_thread}

abbrev pub deadline : Kernel → Ptr → ℕ
deadline k p = (k.threads p).sync_entity.deadline_at

abbrev pub IsOrdered : Kernel → WaitTree → Type 0
IsOrdered k ws = IsSorted (cmp_sync_entity k.threads) ws

checked : (k : Kernel) (p : Ptr) → is_idle (kind k p) ≡ false → check_entity k p ≡ done tt
unfolding check_entity
checked k p busy = ground arith

inserted :
    (k : Kernel) (ws : WaitTree) (p : Ptr) (d : ℕ)
    → p ∉ ws
    → IsOrdered k ws
    → IsOrdered (set_sync_entity k p (record { deadline_at = d })) (
        Tree.insert
          (cmp_sync_entity (set_sync_entity k p (record { deadline_at = d })).threads)
          p
          ws)
inserted k ws p d out s =
    let k' = set_sync_entity k p (record { deadline_at = d }) in
    insert-IsSorted (cmp_key-IsStrict (deadline k')) p ws out (
      IsSorted-frame (deadline k) (deadline k') ws
        (All-of_mem (λ a. deadline k' a ≡ deadline k a) ws λ a m. ground arith) s)

-- A CFS or RT thread that starts to wait joins the waiters under the deadline it is given; the tree
-- stays ordered by deadline, and loses no waiter.
pub insert_sync_waiter_lem :
    (k : Kernel) (ws : WaitTree) (p : Ptr) (d : ℕ)
    → is_idle (kind k p) ≡ false
    → p ∉ ws
    → IsOrdered k ws
    → Returns
        (λ r. IsOrdered r.0 r.1 × (deadline r.0 p ≡ d) × (p ∈ r.1) × (length r.1 ≡ length ws + 1))
        (insert_sync_waiter k ws p d)
unfolding insert_sync_waiter
insert_sync_waiter_lem k ws p d busy out s =
    let k' = set_sync_entity k p (record { deadline_at = d }) in
    let joined = has-insert (cmp_sync_entity k'.threads) p p ws in
    rw (checked k p busy) (
      inserted k ws p d out s,
      ground arith,
      ground (arith, joined),
      length-insert (cmp_sync_entity k'.threads) p ws,
    )

earliest :
    (key : Ptr → ℕ) (p : Ptr) (ws : WaitTree)
    → All (λ q. cmp_key key p q ≡ Ordering.lt) ws
    → All (λ q. key p ≤ key q) ws
earliest key p ws h = All-imp (λ q g. ground arith) ws h

-- In a tree ordered by deadline, a waiter that is handed on is the first one: it is blocked, no other
-- has an earlier deadline, and the others stay, in order.
pub pop_waiting_thread_lem :
    (k : Kernel) (ws : WaitTree) (p : Ptr)
    → IsOrdered k ws
    → (pop_waiting_thread k ws).0 ≡ some p
    → (ws ≡ p ∷ (pop_waiting_thread k ws).1)
      × (is_blocked (state k p) ≡ true)
      × All (λ q. deadline k p ≤ deadline k q) (pop_waiting_thread k ws).1
      × IsOrdered k (pop_waiting_thread k ws).1
unfolding pop_waiting_thread
pop_waiting_thread_lem k [] p s h = absurd (cc)
pop_waiting_thread_lem k (q ∷ rest) p s h =
    let same : q ≡ p = ground arith in
    let least = earliest (deadline k) q rest s.0 in
    (
      ground arith,
      ground arith,
      subst (λ x. All (λ y. deadline k x ≤ deadline k y) rest) same least,
      s.1,
    )
