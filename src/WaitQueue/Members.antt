-- ===== src/WaitQueue/Members.antt =====
-- Which threads wait in src/waitq.rs, and in which order, as threads come and go.
use rtsched.Base.{
  ◌≡◌, ◌∙◌, refl, Ptr, false, not, ◌&&◌, ◌||◌, List, [], ◌∷◌, ◌++◌, All-imp, has, ◌∉◌, ◌==◌,
  if◌then◌else◌, arith, Ordering, inl, inr, Bool-cases, u64_max,
}
use rtsched.Tree
use rtsched.Tree.Order.{IsSorted}
use rtsched.Tree.Insert.{has-insert, insert-IsSorted}
use rtsched.Thread.{ThreadState, waiting, suspended, is_idle}
use rtsched.Kernel.{Kernel, done, ◌>>=◌, Returns}
use rtsched.Kernel.Access.{state, kind, check_entity, set_thread_state}
use rtsched.WaitQueue.{cmp_wait, is_suspended, insert_wait_thread, remove_wait_thread}
use rtsched.WaitQueue.Expiry.{wake_at, cmp_wait-IsStrict}

-- The same comparison gives the same order.
IsSorted-ext :
    {cmp cmp' : Ptr → Ptr → Ordering} (xs : List Ptr)
    → ((a b : Ptr) → cmp' a b ≡ cmp a b)
    → IsSorted cmp xs
    → IsSorted cmp' xs
IsSorted-ext {cmp} {cmp'} [] same s = tt
IsSorted-ext {cmp} {cmp'} (x ∷ xs) same s = (
  All-imp {P = λ y. cmp x y ≡ Ordering.lt} {Q = λ y. cmp' x y ≡ Ordering.lt} (λ y h. same x y ∙ h)
      xs s.0,
  IsSorted-ext xs same s.1,
)

cmp_wait-set_thread_state :
    (k : Kernel) (p : Ptr) (st : ThreadState) (a b : Ptr)
    → cmp_wait (set_thread_state k p st).threads a b ≡ cmp_wait k.threads a b
unfolding cmp_wait
cmp_wait-set_thread_state k p st a b = ground arith

checked : (k : Kernel) (p : Ptr) → is_idle (kind k p) ≡ false → check_entity k p ≡ done tt
unfolding check_entity
checked k p busy = ground arith

-- A CFS or RT thread that goes to wait is queued by its wake time: one that never wakes by itself
-- goes to the back of the suspended list, another one joins the tree of finite waits, which stays in
-- order. Its state says where it is, and the others stay.
pub insert_wait_thread_lem :
    (k : Kernel) (p : Ptr)
    → is_idle (kind k p) ≡ false
    → p ∉ k.wait_queue
    → IsSorted (cmp_wait k.threads) k.wait_queue
    → Returns
        (λ r.
          IsSorted (cmp_wait r.threads) r.wait_queue
          × ((a : Ptr)
              → has a r.wait_queue
                ≡ ((a == p && not (wake_at k p == u64_max)) || has a k.wait_queue))
          × (r.suspended
              ≡ (if wake_at k p == u64_max then k.suspended ++ (p ∷ []) else k.suspended))
          × (state r p ≡ (if wake_at k p == u64_max then suspended else waiting)))
        (insert_wait_thread k p)
unfolding insert_wait_thread
insert_wait_thread_lem k p busy out s = elim (Bool-cases (wake_at k p == u64_max)) [
  | inl b ↦
      let r = set_thread_state k p suspended in
      rw (checked k p busy) (
        rw b (
          IsSorted-ext k.wait_queue (cmp_wait-set_thread_state k p suspended) s,
          λ a. ground arith,
          refl,
          ground arith,
        ))
  | inr b ↦
      let r = set_thread_state k p waiting in
      let kept = IsSorted-ext k.wait_queue (cmp_wait-set_thread_state k p waiting) s in
      rw (checked k p busy) (
        rw b (
          insert-IsSorted (cmp_wait-IsStrict r.threads) p k.wait_queue out kept,
          λ a. ground (arith, has-insert (cmp_wait r.threads) a p k.wait_queue),
          refl,
          ground arith,
        ))
]

remove-insert :
    (cmp : Ptr → Ptr → Ordering) (e : Ptr) (xs : List Ptr)
    → e ∉ xs
    → Tree.remove e (Tree.insert cmp e xs) ≡ xs
unfolding Tree.remove Tree.insert
remove-insert cmp e [] out = ground arith
remove-insert cmp e (x ∷ xs) out = ground (arith, remove-insert cmp e xs)

remove-append : (e : Ptr) (xs : List Ptr) → e ∉ xs → Tree.remove e (xs ++ (e ∷ [])) ≡ xs
unfolding Tree.remove
remove-append e [] out = ground arith
remove-append e (x ∷ xs) out = ground (arith, remove-append e xs)

removed :
    (k r : Kernel) (p : Ptr)
    → is_idle (kind r p) ≡ false
    → (if is_suspended (state r p) then Tree.remove p r.suspended else r.suspended) ≡ k.suspended
    → (if is_suspended (state r p) then r.wait_queue else Tree.remove p r.wait_queue) ≡ k.wait_queue
    → Returns
        (λ x. (x.wait_queue ≡ k.wait_queue) × (x.suspended ≡ k.suspended))
        (remove_wait_thread r p)
unfolding remove_wait_thread
removed k r p busy fifo tree = rw (checked r p busy) (ground (arith, fifo, tree))

-- Taking out a thread that has just gone to wait gives both sequences back as they were.
pub remove_wait_thread-insert_wait_thread :
    (k : Kernel) (p : Ptr)
    → is_idle (kind k p) ≡ false
    → p ∉ k.wait_queue
    → p ∉ k.suspended
    → Returns
        (λ r. (r.wait_queue ≡ k.wait_queue) × (r.suspended ≡ k.suspended))
        (insert_wait_thread k p >>= λ r. remove_wait_thread r p)
unfolding insert_wait_thread
remove_wait_thread-insert_wait_thread k p busy out out' =
    elim (Bool-cases (wake_at k p == u64_max)) [
      | inl b ↦
          let r = record (set_thread_state k p suspended) { suspended = k.suspended ++ (p ∷ []) } in
          rw (checked k p busy) (
            rw b (
              removed k r p (ground arith) (ground (arith, remove-append p k.suspended out'))
                (ground arith)))
      | inr b ↦
          let s = set_thread_state k p waiting in
          let back = remove-insert (cmp_wait s.threads) p k.wait_queue out in
          let r = record s { wait_queue = Tree.insert (cmp_wait s.threads) p k.wait_queue } in
          rw (checked k p busy)
            (rw b (removed k r p (ground arith) (ground arith) (ground (arith, back))))
    ]
