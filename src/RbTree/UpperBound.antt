-- ===== src/RbTree/UpperBound.antt =====
-- `upper_bound` of src/rbtree.rs on the links.
use rtsched.Base.{
  ℕ, suc, zero, ◌<◌, Ptr, Ordering, Option, none, some, List, [], ◌∷◌, ◌++◌, ◌≡◌, ◌≢◌, ◌∙◌, ap, sym,
  refl, arith, length, length-append, All, All-imp, inl, inr,
}
use rtsched.Kernel.{done}
use rtsched.RbTree.{RbNode, RbTree}
use rtsched.RbTree.Insert.{bound_below, upper_bound}
use rtsched.RbTree.Shape.{Shape, leaf, node, root_of, in_order, Below, Along}
use rtsched.RbTree.Balance.{Holds}
use rtsched.RbTree.Slot.{IsSorted-split}
use rtsched.Tree.Insert.{Ordering-cases}
use rtsched.Tree.Order.{IsStrict, IsSorted}
use rtsched.Tree

abbrev or_else : Option Ptr → Option Ptr → Option Ptr
or_else none b = b
or_else (some a) b = some a

module _ {cmp : Ptr → Ptr → Ordering} (strict : IsStrict cmp) (e : Ptr) where
  upper_bound-append_lt :
      (xs : List Ptr) (p : Ptr) (ys : List Ptr) (c : Option Ptr)
      → cmp e p ≡ Ordering.lt
      → or_else (Tree.upper_bound cmp e (xs ++ p ∷ ys)) c
        ≡ or_else (Tree.upper_bound cmp e xs) (some p)
  unfolding Tree.upper_bound
  upper_bound-append_lt [] p ys c i = rw (i, Tree.upper_bound) refl
  upper_bound-append_lt (x ∷ xs) p ys c i = elim (Ordering-cases (cmp e x)) [
    | inl j ↦ rw (j, Tree.upper_bound) refl
    | inr (inl j) ↦ rw (j, Tree.upper_bound) (upper_bound-append_lt xs p ys c i)
    | inr (inr j) ↦ rw (j, Tree.upper_bound) (upper_bound-append_lt xs p ys c i)
  ]

  upper_bound-skip :
      (xs ys : List Ptr)
      → All (λ x. cmp e x ≡ Ordering.gt) xs
      → Tree.upper_bound cmp e (xs ++ ys) ≡ Tree.upper_bound cmp e ys
  unfolding Tree.upper_bound
  upper_bound-skip [] ys h = refl
  upper_bound-skip (x ∷ xs) ys h = rw (h.0, Tree.upper_bound) (upper_bound-skip xs ys h.1)

  upper_bound-cons :
      (p : Ptr) (ys : List Ptr)
      → cmp e p ≢ Ordering.lt
      → Tree.upper_bound cmp e (p ∷ ys) ≡ Tree.upper_bound cmp e ys
  unfolding Tree.upper_bound
  upper_bound-cons p ys i = elim (Ordering-cases (cmp e p)) [
    | inl j ↦ absurd (i j)
    | inr (inl j) ↦ rw (j, Tree.upper_bound) refl
    | inr (inr j) ↦ rw (j, Tree.upper_bound) refl
  ]

  after_below :
      (p : Ptr) (xs : List Ptr)
      → cmp e p ≢ Ordering.lt
      → All (λ x. cmp x p ≡ Ordering.lt) xs
      → All (λ x. cmp e x ≡ Ordering.gt) xs
  after_below p xs i h = elim (Ordering-cases (cmp e p)) [
    | inl j ↦ absurd (i j)
    | inr (inl j) ↦ All-imp (λ x k. strict.gt_of_lt x e (rw (strict.eq_of_cmp e p j) k)) xs h
    | inr (inr j) ↦
        All-imp (λ x k. strict.gt_of_lt x e (strict.lt_trans x p e k (strict.lt_of_gt e p j))) xs h
  ]

  bound_below_lem :
      (n : ℕ) (t : RbTree) (up c : Option Ptr) (s : Shape)
      → Below t.nodes up s
      → IsSorted cmp (in_order s)
      → length (in_order s) < n
      → bound_below cmp n t e c (root_of s) ≡ done (or_else (Tree.upper_bound cmp e (in_order s)) c)
  unfolding bound_below Below in_order Tree.upper_bound
  bound_below_lem zero t up c s b h short = absurd (omega arith)
  bound_below_lem (suc n) t up c leaf b h short = refl
  bound_below_lem (suc n) t up c (node k l p r) b h short =
      let (hl, below, hr) = IsSorted-split cmp (in_order l) p (in_order r) h in
      let total = length-append (in_order l) (p ∷ in_order r) in
      let left = bound_below_lem n t (some p) (some p) l b.1 hl (omega (arith, total)) in
      let right = bound_below_lem n t (some p) c r b.2 hr (omega (arith, total)) in
      let lower : cmp e p ≡ Ordering.lt
          → bound_below cmp (suc n) t e c (some p)
            ≡ done (or_else (Tree.upper_bound cmp e (in_order l ++ p ∷ in_order r)) c) =
        λ i.
          rw (i, bound_below)
            (ap (λ (m : RbNode). bound_below cmp n t e (some p) m.left) b.0
              ∙ left
              ∙ ap done (sym (upper_bound-append_lt (in_order l) p (in_order r) c i))) in
      let upper : cmp e p ≢ Ordering.lt
          → bound_below cmp n t e c (t.nodes p).right
            ≡ done (or_else (Tree.upper_bound cmp e (in_order l ++ p ∷ in_order r)) c) =
        λ i.
          ap (λ (m : RbNode). bound_below cmp n t e c m.right) b.0
          ∙ right
          ∙ ap (λ o. done (or_else o c))
              (sym (
                upper_bound-skip (in_order l) (p ∷ in_order r) (after_below p (in_order l) i below)
                ∙ upper_bound-cons p (in_order r) i)) in
      elim (Ordering-cases (cmp e p)) [
        | inl i ↦ lower i
        | inr (inl i) ↦ rw (i, bound_below) (upper (ground arith))
        | inr (inr i) ↦ rw (i, bound_below) (upper (ground arith))
      ]

or_else-none : (a : Option Ptr) → or_else a none ≡ a
or_else-none none = refl
or_else-none (some p) = refl

-- `upper_bound` of any entity, linked or not, returns the first entity of the sequence that is ordered
-- strictly after it, where the comparison is strict and the sequence ascends.
pub upper_bound-Holds :
    {cmp : Ptr → Ptr → Ordering}
    → IsStrict cmp
    → (t : RbTree) (xs : List Ptr) (e : Ptr) → Holds t xs
    → IsSorted cmp xs
    → upper_bound cmp t e ≡ done (Tree.upper_bound cmp e xs)
unfolding upper_bound Along
upper_bound-Holds {cmp} strict t xs e h sorted =
    let w = h.linked in
    ap (bound_below cmp (suc t.len) t e none) w.at.along
    ∙ bound_below_lem strict e (suc t.len) t none none w.shape w.at.below (rw w.order sorted)
        (omega (arith, ap length w.order, h.len))
    ∙ ap done (
        or_else-none (Tree.upper_bound cmp e (in_order w.shape))
        ∙ ap (Tree.upper_bound cmp e) w.order)
