-- ===== src/KTimer/Queue/Least.antt =====
-- `KTimerQueue::first` against all queued timers.
use rtsched.Base.{
  Ptr, Option, ◌⊎◌, inl, inr, All, All-of_mem, ◌++◌, List, ◌∙◌, sym, Bool-cases, Option-cases, ◌==◌,
  Ordering, ◌≡◌, ◌≢◌, refl, List, [], ◌∷◌, true, false, ◌||◌, arith, has, none, some,
}
use rtsched.Tree
use rtsched.Tree.Order.{IsSorted}
use rtsched.Tree.First.{first-least, first-none, has-first}
use rtsched.KTimer.Queue.{KTimerQueue, cmp, contains, first, earlier_of}
use rtsched.KTimer.Queue.Inv.{IsValid}

-- `first` is null exactly on the empty queue.
pub first-none_lem : (q : KTimerQueue) (b : Ptr) → IsValid q → first q ≡ none → contains q b ≡ false
unfolding first contains
first-none_lem q b v h = ground (
  arith,
  first-none q.active_tree b,
  first-none q.inactive_tree b,
  v.active_cached,
  v.inactive_cached,
)

-- The earlier of two ascending sequences' minima comes before every other member of both.
earlier-least :
    (q : KTimerQueue) (xs ys : List Ptr) {a : Ptr} (b : Ptr)
    → IsSorted (cmp q) xs
    → IsSorted (cmp q) ys
    → earlier_of q (Tree.first xs) (Tree.first ys) ≡ some a
    → (has b xs || has b ys) ≡ true
    → b ≢ a
    → cmp q a b ≡ Ordering.lt
unfolding earlier_of
earlier-least q [] [] b s t h m ne = absurd (cc)
earlier-least q [] (y ∷ ys) b s t h m ne = first-least (cmp q) (y ∷ ys) b t h m ne
earlier-least q (x ∷ xs) [] b s t h m ne = first-least (cmp q) (x ∷ xs) b s h (ground arith) ne
earlier-least q (x ∷ xs) (y ∷ ys) b s t h m ne = ground (
  arith,
  first-least (cmp q) (x ∷ xs) {a = x} b s refl,
  first-least (cmp q) (y ∷ ys) {a = y} b t refl,
)

-- Of the first timer and another queued one, the first comes before.
pub first_lem :
    (q : KTimerQueue) {a : Ptr} (b : Ptr)
    → IsValid q
    → first q ≡ some a
    → contains q b ≡ true
    → b ≢ a
    → cmp q a b ≡ Ordering.lt
unfolding first contains
first_lem q {a} b v h m ne =
    earlier-least q q.active_tree q.inactive_tree b v.active_sorted v.inactive_sorted
      (rw (← v.active_cached, ← v.inactive_cached) h) m ne

pub contains-first :
    (q : KTimerQueue) {a : Ptr} → IsValid q → first q ≡ some a → contains q a ≡ true
unfolding first contains
contains-first q {a} v h = ground (
  arith,
  has-first q.active_tree {a = a},
  has-first q.inactive_tree {a = a},
  v.active_cached,
  v.inactive_cached,
)

has-append : (b : Ptr) (xs ys : List Ptr) → has b (xs ++ ys) ≡ (has b xs || has b ys)
has-append b [] ys = refl
has-append b (x ∷ xs) ys = ground (arith, has-append b xs ys)

-- What `first` may return: null if no timer is queued, or a queued timer, active or not, that comes
-- before every other queued one.
abbrev pub IsEarliest : KTimerQueue → Option Ptr → Type 0
IsEarliest q none = (b : Ptr) → contains q b ≡ false
IsEarliest q (some a) =
    (contains q a ≡ true)
    × All (λ b. (b ≡ a) ⊎ (cmp q a b ≡ Ordering.lt)) (q.active_tree ++ q.inactive_tree)

-- Of a queue that keeps the invariant, `first` returns a queued timer, active or not, that expires
-- before every other one of either tree, ties by address; it returns null if no timer is queued.
pub first-IsEarliest : (q : KTimerQueue) → IsValid q → IsEarliest q (first q)
unfolding contains
first-IsEarliest q v = elim (Option-cases (first q)) [
  | inl e ↦ rw e λ b. first-none_lem q b v e
  | inr (a, e) ↦ rw e (
    contains-first q v e,
    All-of_mem (λ b. (b ≡ a) ⊎ (cmp q a b ≡ Ordering.lt)) (q.active_tree ++ q.inactive_tree)
        λ b m. elim (Bool-cases (b == a)) [
          | inl i ↦ inl (ground arith)
          | inr i ↦ inr (
              first_lem q {a = a} b v e (sym (has-append b q.active_tree q.inactive_tree) ∙ m)
                (ground arith))
        ],
  )
]
