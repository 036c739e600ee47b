-- ===== src/Diagnostics/Merged.antt =====
-- The two trees of `KTimerQueue` as one ascending sequence.

use rtsched.Base.{
  IsDistinct, ◌+◌, Ptr, Ordering, Bool, false, ◌||◌, ◌≡◌, refl, subst, List, [], ◌∷◌, length,
  Option, none, some, All, ◌∉◌, has, arith, Bool-cases, inl, inr,
}
use rtsched.Tree
use rtsched.Tree.Order.{IsStrict, IsSorted, cmp_key-IsStrict}
use rtsched.Tree.Insert.{has-insert, insert-IsSorted, length-insert, Ordering-cases}
use rtsched.KTimer.Queue.{KTimerQueue, cmp, earlier_of, is_less}
use rtsched.Diagnostics.Next.{IsNextIn}

pub strict : (q : KTimerQueue) → IsStrict (cmp q)
strict q = cmp_key-IsStrict (λ p. (q.entities p).expire_at)

-- What does not come before `y` does not come before what `y` does not come after.
not_less_trans :
    (q : KTimerQueue) (a y z : Ptr)
    → is_less (cmp q a z) ≡ false
    → is_less (cmp q z y) ≡ false
    → is_less (cmp q a y) ≡ false
not_less_trans q a y z h l = elim (Ordering-cases (cmp q a y)) [
  | inr _ ↦ ground arith
  | inl b ↦ elim (Ordering-cases (cmp q y z)) [
    | inl c ↦ absurd (ground (arith, (strict q).lt_trans a y z b c))
    | inr (inl i) ↦
        let same = (strict q).eq_of_cmp y z i in
        absurd (ground (arith, subst (λ x. cmp q a x ≡ Ordering.lt) same b))
    | inr (inr g) ↦ absurd (ground (arith, (strict q).lt_of_gt y z g))
  ]
]

-- The earlier one of two timers that come next, each in a part of the queue, comes next in both.
pub earlier_of-IsNextIn :
    (q : KTimerQueue) (e : Ptr) (P Q R : Ptr → Bool) (o o' : Option Ptr)
    → ((a : Ptr) → R a ≡ (P a || Q a))
    → IsNextIn (strict q) e P o
    → IsNextIn (strict q) e Q o'
    → IsNextIn (strict q) e R (earlier_of q o o')
unfolding IsNextIn earlier_of
earlier_of-IsNextIn q e P Q R none none r h h' = λ a m. ground (arith, r a, h a, h' a)
earlier_of-IsNextIn q e P Q R none (some z) r h h' =
    (ground (arith, r z, h'.0), h'.1, λ a m b. ground (arith, r a, h a, h'.2 a))
earlier_of-IsNextIn q e P Q R (some y) none r h h' =
    (ground (arith, r y, h.0), h.1, λ a m b. ground (arith, r a, h.2 a, h' a))
earlier_of-IsNextIn q e P Q R (some y) (some z) r h h' = elim (Bool-cases (is_less (cmp q y z))) [
  | inl b ↦
      rw (b, earlier_of)
        (
          ground (arith, r y, h.0),
          h.1,
          λ a m l. ground (arith, r a, h.2 a, h'.2 a, not_less_trans q a y z),
        )
  | inr b ↦
      rw (b, earlier_of)
        (
          ground (arith, r z, h'.0),
          h'.1,
          λ a m l. ground (arith, r a, h.2 a, h'.2 a, not_less_trans q a z y),
        )
]

-- All timers in one ascending sequence.
unfoldable pub insert_all : (Ptr → Ptr → Ordering) → List Ptr → List Ptr → List Ptr
insert_all c [] ys = ys
insert_all c (x ∷ xs) ys = Tree.insert c x (insert_all c xs ys)

pub has-insert_all :
    (c : Ptr → Ptr → Ordering) (a : Ptr) (xs ys : List Ptr)
    → has a (insert_all c xs ys) ≡ (has a xs || has a ys)
unfolding insert_all
has-insert_all c a [] ys = refl
has-insert_all c a (x ∷ xs) ys =
    ground (arith, has-insert c a x (insert_all c xs ys), has-insert_all c a xs ys)

pub length-insert_all :
    (c : Ptr → Ptr → Ordering) (xs ys : List Ptr)
    → length (insert_all c xs ys) ≡ length xs + length ys
unfolding insert_all
length-insert_all c [] ys = omega arith
length-insert_all c (x ∷ xs) ys =
    omega (arith, length-insert c x (insert_all c xs ys), length-insert_all c xs ys)

pub insert_all-IsSorted :
    {c : Ptr → Ptr → Ordering} (strict : IsStrict c) (xs ys : List Ptr)
    → IsDistinct xs
    → All (λ x. x ∉ ys) xs
    → IsSorted c ys
    → IsSorted c (insert_all c xs ys)
unfolding insert_all
insert_all-IsSorted strict [] ys d out s = s
insert_all-IsSorted {c} strict (x ∷ xs) ys d out s =
    insert-IsSorted strict x (insert_all c xs ys)
      (ground (arith, has-insert_all c x xs ys, d.0, out.0))
      (insert_all-IsSorted strict xs ys d.1 out.1 s)

unfoldable pub merged : KTimerQueue → List Ptr
merged q = insert_all (cmp q) q.inactive_tree q.active_tree
