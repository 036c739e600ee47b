-- ===== src/KTimer/Queue/Members.antt =====
-- Which timers are queued after each operation of `KTimerQueue`.
use rtsched.Base.{
  not, ◌&&◌, Ptr, ◌≡◌, Bool, true, false, ◌||◌, arith, All-mem, has, ◌∉◌, ◌==◌, Bool-cases, inl,
  inr,
}
use rtsched.Tree.Order.{cmp_key-IsStrict}
use rtsched.Tree.Insert.{has-insert}
use rtsched.Tree.Remove.{has-remove_ne, not-mem-remove}
use rtsched.KTimer.Queue.{KTimerQueue, cmp, insert, remove, dequeue, contains}
use rtsched.KTimer.Queue.Inv.{
  IsValid, IsDetached, remove-IsValid, set_entity-IsValid, insert-IsValid,
}

pub IsDetached-of_not_contains : (q : KTimerQueue) (a : Ptr) → contains q a ≡ false → IsDetached q a
unfolding contains
IsDetached-of_not_contains q a h = ground arith

pub contains-of_IsDetached : (q : KTimerQueue) (a : Ptr) → IsDetached q a → contains q a ≡ false
unfolding contains
contains-of_IsDetached q a h = ground arith

pub contains-insert :
    (q : KTimerQueue) (p a : Ptr) (active : Bool)
    → contains (insert q p active) a ≡ (a == p || contains q a)
unfolding contains insert
contains-insert q p a true = ground (arith, has-insert (cmp q) a p q.active_tree)
contains-insert q p a false = ground (arith, has-insert (cmp q) a p q.inactive_tree)

-- A timer whose flag is set is not in the inactive tree, and one whose flag is clear not in the
-- active tree.
pub not-mem-inactive :
    (q : KTimerQueue) (a : Ptr) → IsValid q → (q.entities a).active ≡ true → a ∉ q.inactive_tree
not-mem-inactive q a v on = elim (Bool-cases (has a q.inactive_tree)) [
  | inr out ↦ out
  | inl m ↦
      absurd (ground (arith, All-mem (λ x. (q.entities x).active ≡ false) a _ v.inactive_flags m))
]

pub not-mem-active :
    (q : KTimerQueue) (a : Ptr) → IsValid q → (q.entities a).active ≡ false → a ∉ q.active_tree
not-mem-active q a v off = elim (Bool-cases (has a q.active_tree)) [
  | inr out ↦ out
  | inl m ↦
      absurd (ground (arith, All-mem (λ x. (q.entities x).active ≡ true) a _ v.active_flags m))
]

pub remove-IsDetached : (q : KTimerQueue) (p : Ptr) → IsValid q → IsDetached (remove q p) p
unfolding remove
remove-IsDetached q p v = elim (Bool-cases (q.entities p).active) [
  | inl on ↦ rw on (
    not-mem-remove (cmp_key-IsStrict _) p q.active_tree v.active_sorted,
    not-mem-inactive q p v on,
  )
  | inr off ↦ rw off (
    not-mem-active q p v off,
    not-mem-remove (cmp_key-IsStrict _) p q.inactive_tree v.inactive_sorted,
  )
]

pub contains-remove_ne :
    (q : KTimerQueue) (p a : Ptr) → (a == p) ≡ false → contains (remove q p) a ≡ contains q a
unfolding contains remove
contains-remove_ne q p a ne =
    ground (arith, has-remove_ne a p q.active_tree ne, has-remove_ne a p q.inactive_tree ne)

contains-remove :
    (q : KTimerQueue) (p a : Ptr)
    → IsValid q
    → contains (remove q p) a ≡ (contains q a && not (a == p))
contains-remove q p a v = elim (Bool-cases (a == p)) [
  | inr ne ↦ ground (arith, contains-remove_ne q p a ne)
  | inl e ↦
      let same : a ≡ p = ground arith in
      let out : contains (remove q p) p ≡ false =
        contains-of_IsDetached (remove q p) p (remove-IsDetached q p v) in
      ground (arith, same, out)
]

-- Of a queue that keeps the invariant and has the timer linked, `KTimerQueue::remove` keeps the
-- invariant, unlinks exactly this timer, and changes no entity and no time.
pub remove_lem :
    (q : KTimerQueue) (p : Ptr)
    → IsValid q
    → contains q p ≡ true
    → IsValid (remove q p)
      × IsDetached (remove q p) p
      × ((a : Ptr) → contains (remove q p) a ≡ (contains q a && not (a == p)))
      × ((remove q p).entities ≡ q.entities)
      × ((remove q p).now_ticks ≡ q.now_ticks)
unfolding remove
remove_lem q p v linked = (
  remove-IsValid q p v,
  remove-IsDetached q p v,
  λ a. contains-remove q p a v,
  ground arith,
  ground arith,
)

-- `KTimerQueue::dequeue` of a linked timer keeps the invariant, unlinks the timer and makes it
-- ineligible.
pub dequeue_lem :
    (q : KTimerQueue) (p : Ptr)
    → IsValid q
    → contains q p ≡ true
    → IsValid (dequeue q p)
      × IsDetached (dequeue q p) p
      × (((dequeue q p).entities p).active ≡ false)
      × ((a : Ptr) → contains (dequeue q p) a ≡ (contains q a && not (a == p)))
unfolding dequeue contains
dequeue_lem q p v linked = (
  set_entity-IsValid (remove q p) p _ (remove-IsDetached q p v) (remove-IsValid q p v),
  remove-IsDetached q p v,
  ground arith,
  λ a. contains-remove q p a v,
)

-- `insert` keeps the invariant for a timer that is not queued, queues it, and keeps the others.
pub insert_lem :
    (q : KTimerQueue) (p : Ptr) (active : Bool)
    → IsDetached q p
    → IsValid q
    → IsValid (insert q p active)
      × (((insert q p active).entities p).active ≡ active)
      × ((a : Ptr) → contains (insert q p active) a ≡ (a == p || contains q a))
unfolding insert
insert_lem q p true d v =
    (insert-IsValid q p true d v, ground arith, λ a. contains-insert q p a true)
insert_lem q p false d v =
    (insert-IsValid q p false d v, ground arith, λ a. contains-insert q p a false)
