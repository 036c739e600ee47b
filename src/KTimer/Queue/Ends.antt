-- ===== src/KTimer/Queue/Ends.antt =====
-- The ends of the combined order of `KTimerQueue`, which src/ktimer.rs offers to host builds.
use rtsched.Base.{
  ℕ, Ptr, Option, none, some, Bool, true, not, ◌&&◌, ◌==◌, ◌≡◌, ◌⊎◌, inl, inr, arith, is_nil,
  Ordering, refl, Option-cases, Bool-cases,
}
use rtsched.Tree
use rtsched.KTimer.{remaining_at}
use rtsched.KTimer.Queue.{KTimerQueue, cmp, first, contains, remove}
use rtsched.KTimer.Queue.Inv.{IsValid}
use rtsched.KTimer.Queue.Members.{remove_lem}
use rtsched.KTimer.Queue.Least.{first_lem, first-none_lem, contains-first}

abbrev pub is_empty : KTimerQueue → Bool
is_empty q = is_nil q.active_tree && is_nil q.inactive_tree

abbrev pub later_of : KTimerQueue → Option Ptr → Option Ptr → Option Ptr
later_of q none inactive = inactive
later_of q (some a) none = some a
later_of q (some a) (some b) = elim (cmp q a b) [ Ordering.gt ↦ some a | _ ↦ some b ]

abbrev pub last : KTimerQueue → Option Ptr
last q = later_of q (Tree.last q.active_tree) (Tree.last q.inactive_tree)

abbrev pub next_deadline : KTimerQueue → Option ℕ
next_deadline q = elim (first q) [
  | none ↦ none
  | some e ↦ some (remaining_at q.now_ticks (q.entities e))
]

unfoldable pub pop_first : KTimerQueue → KTimerQueue × Option Ptr
pop_first q = elim (first q) [ none ↦ (q, none) | some e ↦ (remove q e, some e) ]

-- Of a queue that keeps the invariant and has a timer `b`, `pop_first` returns a timer that was queued
-- and is `b` or expires before it, ties by address; it leaves the other timers queued and keeps the
-- invariant.
pub pop_first_lem :
    (q : KTimerQueue) (b : Ptr)
    → IsValid q
    → contains q b ≡ true
    → (a : Ptr) × ((pop_first q).1 ≡ some a)
      × (contains q a ≡ true)
      × ((b ≡ a) ⊎ (cmp q a b ≡ Ordering.lt))
      × IsValid (pop_first q).0
      × ((c : Ptr) → contains (pop_first q).0 c ≡ (contains q c && not (c == a)))
unfolding pop_first
pop_first_lem q b v m = elim (Option-cases (first q)) [
  | inl e ↦ absurd (ground (arith, first-none_lem q b v e))
  | inr (a, e) ↦
      let kept = remove_lem q a v (contains-first q v e) in
      let order : (b ≡ a) ⊎ (cmp q a b ≡ Ordering.lt) = elim (Bool-cases (b == a)) [
        | inl i ↦ inl (ground arith)
        | inr i ↦ inr (first_lem q {a = a} b v e m (ground arith))
      ] in
      rw (e, pop_first) (a, refl, contains-first q v e, order, kept.0, kept.2)
]
