-- ===== src/RbTree/Inserted.antt =====
-- `insert` of src/rbtree.rs on the links does what the ascending sequence does.
use rtsched.Base.{
  ℕ, suc, zero, ◌<◌, Ptr, Ordering, some, List, [], ◌∷◌, ◌++◌, ◌||◌, ◌≡◌, ◌⊎◌, inl, inr, ◌∙◌, ap,
  sym, refl, arith, length, length-append, All-imp, has, ◌∉◌,
}
use rtsched.Kernel.{done}
use rtsched.RbTree.{RbNode, RbTree, Color, left_side, right_side}
use rtsched.RbTree.Insert.{descend}
use rtsched.RbTree.Shape.{Shape, leaf, node, Step, step, root_of, top, in_order, Below, count}
use rtsched.RbTree.Slot.{graft, slot, IsSorted-split, insert-append_lt, insert-append_gt}
use rtsched.Tree.Insert.{Ordering-cases}
use rtsched.Tree.Order.{IsStrict, IsSorted}
use rtsched.Tree

pub has-append : (a : Ptr) (xs ys : List Ptr) → has a (xs ++ ys) ≡ (has a xs || has a ys)
has-append a [] ys = refl
has-append a (x ∷ xs) ys = ground (arith, has-append a xs ys)

-- What is not in the order is not in the tree.
pub count-in_order : (a : Ptr) (s : Shape) → a ∉ in_order s → count a s ≡ 0
unfolding count in_order
count-in_order a leaf out = refl
count-in_order a (node c l p r) out =
    ground
      (arith, has-append a (in_order l) (p ∷ in_order r), count-in_order a l, count-in_order a r)

-- The last comparison of the search.
unfoldable pub Steered : (Ptr → Ptr → Ordering) → Ptr → List Step → Type 0
Steered cmp e [] = Unit
Steered cmp e (step left_side c p far ∷ ctx) = cmp e p ≡ Ordering.lt
Steered cmp e (step right_side c p far ∷ ctx) = cmp e p ≡ Ordering.gt

module _ {cmp : Ptr → Ptr → Ordering} (strict : IsStrict cmp) (e : Ptr) where
  -- The source compares unequal keys only.
  node_side :
      (c : Color) (l : Shape) (p : Ptr) (r : Shape)
      → count e (node c l p r) ≡ 0
      → (cmp e p ≡ Ordering.lt) ⊎ (cmp e p ≡ Ordering.gt)
  unfolding count
  node_side c l p r z = elim (Ordering-cases (cmp e p)) [
    | inl i ↦ inl i
    | inr (inl i) ↦ absurd (ground (arith, strict.eq_of_cmp e p i))
    | inr (inr i) ↦ inr i
  ]

  pub in_order-graft :
      (s : Shape)
      → count e s ≡ 0
      → IsSorted cmp (in_order s)
      → in_order (graft cmp e s) ≡ Tree.insert cmp e (in_order s)
  unfolding in_order graft count Tree.insert
  in_order-graft leaf z h = refl
  in_order-graft (node c l p r) z h =
      let (hl, below, hr) = IsSorted-split cmp (in_order l) p (in_order r) h in
      let left = in_order-graft l (omega arith) hl in
      let right = in_order-graft r (omega arith) hr in
      elim (node_side c l p r z) [
        | inl i ↦
            rw (i, graft)
              (ap (λ xs. xs ++ p ∷ in_order r) left
                ∙ sym (insert-append_lt cmp e (in_order l) p (in_order r) i))
        | inr i ↦
            let low =
              All-imp (λ x j. strict.gt_of_lt x e (strict.lt_trans x p e j (strict.lt_of_gt e p i)))
                (in_order l) below in
            let skip : Tree.insert cmp e (p ∷ in_order r) ≡ p ∷ Tree.insert cmp e (in_order r) =
              rw (i, Tree.insert) refl in
            rw (i, graft)
              (ap (λ xs. in_order l ++ p ∷ xs) right
                ∙ ap (λ xs. in_order l ++ xs) (sym skip)
                ∙ sym (insert-append_gt cmp e (in_order l) (p ∷ in_order r) low))
      ]

  -- The search finds the slot.
  pub descend-slot :
      (n : ℕ) (t : RbTree) (s : Shape) (ctx : List Step)
      → Below t.nodes (top ctx) s
      → count e s ≡ 0
      → length (in_order s) < n
      → descend cmp n t e (top ctx) (root_of s) ≡ done (top (slot cmp e s ctx))
  unfolding descend Below slot count in_order
  descend-slot zero t s ctx b z short = absurd (omega arith)
  descend-slot (suc n) t leaf ctx b z short = refl
  descend-slot (suc n) t (node c l p r) ctx b z short =
      let total = length-append (in_order l) (p ∷ in_order r) in
      let left =
        descend-slot n t l (step left_side c p r ∷ ctx) b.1 (omega arith) (omega (arith, total)) in
      let right =
        descend-slot n t r (step right_side c p l ∷ ctx) b.2 (omega arith) (omega (arith, total)) in
      elim (node_side c l p r z) [
        | inl i ↦
            rw (i, descend, slot)
              (ap (λ (m : RbNode). descend cmp n t e (some p) m.left) b.0 ∙ left)
        | inr i ↦
            rw (i, descend, slot)
              (ap (λ (m : RbNode). descend cmp n t e (some p) m.right) b.0 ∙ right)
      ]

  pub Steered-slot :
      (s : Shape) (ctx : List Step)
      → count e s ≡ 0
      → Steered cmp e ctx
      → Steered cmp e (slot cmp e s ctx)
  unfolding Steered slot count
  Steered-slot leaf ctx z h = h
  Steered-slot (node c l p r) ctx z h = elim (node_side c l p r z) [
    | inl i ↦ rw (i, slot) (Steered-slot l (step left_side c p r ∷ ctx) (omega arith) i)
    | inr i ↦ rw (i, slot) (Steered-slot r (step right_side c p l ∷ ctx) (omega arith) i)
  ]
