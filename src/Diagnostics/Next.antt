-- ===== src/Diagnostics/Next.antt =====
-- The least of some entities that come after a given one, which the reads of an index return.

use rtsched.Base.{
  Ptr, Ordering, Bool, true, false, ◌||◌, ◌≡◌, refl, sym, subst, ap, List, [], ◌∷◌, Option, none,
  some, All, All-mem, ◌∈◌, ◌==◌, has, arith, Bool-cases, inl, inr,
}
use rtsched.Tree
use rtsched.Tree.Order.{IsStrict, IsSorted}
use rtsched.Tree.Insert.{Ordering-cases}
use rtsched.KTimer.Queue.{is_less}

module _ {cmp : Ptr → Ptr → Ordering} (strict : IsStrict cmp) where
  -- The least of the entities in `P` that come after `e`, or none.
  unfoldable pub IsNextIn : Ptr → (Ptr → Bool) → Option Ptr → Type 0
  IsNextIn e P none = (a : Ptr) → P a ≡ true → is_less (cmp e a) ≡ false
  IsNextIn e P (some y) =
      (P y ≡ true)
      × (is_less (cmp e y) ≡ true)
      × ((a : Ptr) → P a ≡ true → is_less (cmp e a) ≡ true → is_less (cmp a y) ≡ false)

  pub IsNextIn-unique :
      (e : Ptr) (P : Ptr → Bool) (o o' : Option Ptr) → IsNextIn e P o → IsNextIn e P o' → o ≡ o'
  unfolding IsNextIn
  IsNextIn-unique e P none none h h' = refl
  IsNextIn-unique e P none (some y) h h' = absurd (ground (arith, h y h'.0, h'.1))
  IsNextIn-unique e P (some y) none h h' = absurd (ground (arith, h' y h.0, h.1))
  IsNextIn-unique e P (some y) (some z) h h' = elim (Ordering-cases (cmp y z)) [
    | inl l ↦ absurd (ground (arith, h'.2 y h.0 h.1))
    | inr (inl i) ↦ ap some (strict.eq_of_cmp y z i)
    | inr (inr g) ↦ absurd (ground (arith, h.2 z h'.0 h'.1, strict.lt_of_gt y z g))
  ]

  -- A member that does not come after `e` makes no difference.
  IsNextIn-skip :
      (e x : Ptr) (P : Ptr → Bool) (o : Option Ptr)
      → is_less (cmp e x) ≡ false
      → IsNextIn e P o
      → IsNextIn e (λ a. (a == x) || P a) o
  unfolding IsNextIn
  IsNextIn-skip e x P none l h = λ a m. elim (Bool-cases (a == x)) [
    | inl i ↦ let same : a ≡ x = ground arith in rw same l
    | inr i ↦ h a (ground arith)
  ]
  IsNextIn-skip e x P (some y) l h = (
    ground (arith, h.0),
    h.1,
    λ a m b. elim (Bool-cases (a == x)) [
      | inl i ↦
          let same : a ≡ x = ground arith in
          absurd (ground (arith, same, subst (λ z. is_less (cmp e z) ≡ true) same b))
      | inr i ↦ h.2 a (ground arith) b
    ],
  )

  -- Nothing in an ascending sequence comes before its head.
  head-least :
      (x : Ptr) (xs : List Ptr) (a : Ptr)
      → IsSorted cmp (x ∷ xs)
      → a ∈ (x ∷ xs)
      → is_less (cmp a x) ≡ false
  head-least x xs a s m = elim (Bool-cases (a == x)) [
    | inl i ↦ let same : a ≡ x = ground arith in rw (same, strict.irrefl x) refl
    | inr i ↦
        let after = All-mem (λ y. cmp x y ≡ Ordering.lt) a xs s.0 (ground arith) in
        rw (strict.gt_of_lt x a after) refl
  ]

  pub upper_bound-IsNextIn :
      (e : Ptr) (xs : List Ptr)
      → IsSorted cmp xs
      → IsNextIn e (λ a. has a xs) (Tree.upper_bound cmp e xs)
  unfolding IsNextIn Tree.upper_bound
  upper_bound-IsNextIn e [] s = λ a m. absurd (cc)
  upper_bound-IsNextIn e (x ∷ xs) s =
      let rest = upper_bound-IsNextIn e xs s.1 in
      elim (Ordering-cases (cmp e x)) [
        | inl l ↦ rw (l, Tree.upper_bound) (ground arith, rw l refl, λ a m b. head-least x xs a s m)
        | inr (inl i) ↦
            rw (i, Tree.upper_bound)
              (IsNextIn-skip e x (λ a. has a xs) (Tree.upper_bound cmp e xs) (rw i refl) rest)
        | inr (inr g) ↦
            rw (g, Tree.upper_bound)
              (IsNextIn-skip e x (λ a. has a xs) (Tree.upper_bound cmp e xs) (rw g refl) rest)
      ]

  -- Nothing of what comes after `e` is skipped.
  upper_bound-first :
      (e : Ptr) (xs : List Ptr)
      → All (λ y. cmp e y ≡ Ordering.lt) xs
      → Tree.upper_bound cmp e xs ≡ Tree.first xs
  unfolding Tree.upper_bound
  upper_bound-first e [] h = refl
  upper_bound-first e (x ∷ xs) h = rw (h.0, Tree.upper_bound) refl

  pub next-upper_bound :
      (e : Ptr) (xs : List Ptr)
      → IsSorted cmp xs
      → e ∈ xs
      → Tree.next e xs ≡ Tree.upper_bound cmp e xs
  unfolding Tree.upper_bound
  next-upper_bound e [] s m = absurd (cc)
  next-upper_bound e (x ∷ xs) s m = elim (Bool-cases (e == x)) [
    | inl i ↦
        let same : e ≡ x = ground arith in
        rw (i, Tree.next)
          (rw same (rw (strict.irrefl x, Tree.upper_bound) (sym (upper_bound-first x xs s.0))))
    | inr i ↦
        let after = All-mem (λ y. cmp x y ≡ Ordering.lt) e xs s.0 (ground arith) in
        rw (i, Tree.next)
          (rw (strict.gt_of_lt x e after, Tree.upper_bound)
            (next-upper_bound e xs s.1 (ground arith)))
  ]
