-- ===== src/RbTree/Slot.antt =====
-- The search of `insert` in src/rbtree.rs: the place that it finds for a new entity, and the order there.
use rtsched.Base.{
  ℕ, suc, zero, ◌+◌, ◌≤◌, Ptr, Ordering, List, [], ◌∷◌, ◌++◌, ◌≡◌, inl, inr, ap, refl, subst, arith,
  length, length-append, All,
}
use rtsched.RbTree.{RbTree, red, black, left_side, right_side}
use rtsched.RbTree.Shape.{
  Shape, leaf, node, Step, step, plug, in_order, At, At-down, count, count_along,
}
use rtsched.RbTree.Balance.{shade, RedBlack, Fits}
use rtsched.Tree.Insert.{Ordering-cases}
use rtsched.Tree.Order.{IsSorted}
use rtsched.Tree

All-split :
    (P : Ptr → Type 0) (xs : List Ptr) (c : Ptr) (ys : List Ptr)
    → All P (xs ++ c ∷ ys)
    → All P xs × P c × All P ys
All-split P [] c ys h = (tt, h.0, h.1)
All-split P (x ∷ xs) c ys h = let ih = All-split P xs c ys h.1 in ((h.0, ih.0), ih.1, ih.2)

-- What a sorted sequence says of its parts.
pub IsSorted-split :
    (cmp : Ptr → Ptr → Ordering) (xs : List Ptr) (c : Ptr) (ys : List Ptr)
    → IsSorted cmp (xs ++ c ∷ ys)
    → IsSorted cmp xs × All (λ x. cmp x c ≡ Ordering.lt) xs × IsSorted cmp ys
IsSorted-split cmp [] c ys h = (tt, tt, h.1)
IsSorted-split cmp (x ∷ xs) c ys h =
    let ih = IsSorted-split cmp xs c ys h.1 in
    let at = All-split (λ y. cmp x y ≡ Ordering.lt) xs c ys h.0 in
    ((at.0, ih.0), (at.1, ih.1), ih.2)

module _ (cmp : Ptr → Ptr → Ordering) (e : Ptr) where
  pub insert-append_lt :
      (xs : List Ptr) (c : Ptr) (ys : List Ptr)
      → cmp e c ≡ Ordering.lt
      → Tree.insert cmp e (xs ++ c ∷ ys) ≡ Tree.insert cmp e xs ++ c ∷ ys
  unfolding Tree.insert
  insert-append_lt [] c ys i = rw i refl
  insert-append_lt (x ∷ xs) c ys i = ground (arith, insert-append_lt xs c ys i)

  pub insert-append_gt :
      (xs ys : List Ptr)
      → All (λ x. cmp e x ≡ Ordering.gt) xs
      → Tree.insert cmp e (xs ++ ys) ≡ xs ++ Tree.insert cmp e ys
  unfolding Tree.insert
  insert-append_gt [] ys h = refl
  insert-append_gt (x ∷ xs) ys h = rw h.0 (ap (λ zs. x ∷ zs) (insert-append_gt xs ys h.1))

  -- The binary search tree with the new node, not yet balanced.
  unfoldable pub graft : Shape → Shape
  graft leaf = node red leaf e leaf
  graft (node c l p r) = elim (cmp e p) [
    | Ordering.lt ↦ node c (graft l) p r
    | _ ↦ node c l p (graft r)
  ]

  -- The way to the new node.
  unfoldable pub slot : Shape → List Step → List Step
  slot leaf ctx = ctx
  slot (node c l p r) ctx = elim (cmp e p) [
    | Ordering.lt ↦ slot l (step left_side c p r ∷ ctx)
    | _ ↦ slot r (step right_side c p l ∷ ctx)
  ]

  pub plug-slot :
      (s : Shape) (ctx : List Step) → plug (slot s ctx) (node red leaf e leaf) ≡ plug ctx (graft s)
  unfolding plug slot graft
  plug-slot leaf ctx = refl
  plug-slot (node c l p r) ctx = elim (Ordering-cases (cmp e p)) [
    | inl j ↦ rw (j, slot, graft) (plug-slot l (step left_side c p r ∷ ctx))
    | inr (inl j) ↦ rw (j, slot, graft) (plug-slot r (step right_side c p l ∷ ctx))
    | inr (inr j) ↦ rw (j, slot, graft) (plug-slot r (step right_side c p l ∷ ctx))
  ]

  pub At-slot : (t : RbTree) (s : Shape) (ctx : List Step) → At t ctx s → At t (slot s ctx) leaf
  unfolding slot
  At-slot t leaf ctx v = v
  At-slot t (node c l p r) ctx v =
      let left = At-slot t l (step left_side c p r ∷ ctx) (At-down t left_side c p r ctx l v) in
      let right = At-slot t r (step right_side c p l ∷ ctx) (At-down t right_side c p l ctx r v) in
      elim (Ordering-cases (cmp e p)) [
        | inl j ↦ rw (j, slot) left
        | inr (inl j) ↦ rw (j, slot) right
        | inr (inr j) ↦ rw (j, slot) right
      ]

  pub count_along-slot :
      (a : Ptr) (s : Shape) (ctx : List Step)
      → count_along a (slot s ctx) ≡ count_along a ctx + count a s
  unfolding slot count count_along
  count_along-slot a leaf ctx = omega arith
  count_along-slot a (node c l p r) ctx =
      let left = count_along-slot a l (step left_side c p r ∷ ctx) in
      let right = count_along-slot a r (step right_side c p l ∷ ctx) in
      elim (Ordering-cases (cmp e p)) [
        | inl j ↦ rw (j, slot) (omega (arith, left))
        | inr (inl j) ↦ rw (j, slot) (omega (arith, right))
        | inr (inr j) ↦ rw (j, slot) (omega (arith, right))
      ]

  pub length-slot :
      (s : Shape) (ctx : List Step) → length (slot s ctx) ≤ length ctx + length (in_order s)
  unfolding slot in_order
  length-slot leaf ctx = omega arith
  length-slot (node c l p r) ctx =
      let left = length-slot l (step left_side c p r ∷ ctx) in
      let right = length-slot r (step right_side c p l ∷ ctx) in
      let total = length-append (in_order l) (p ∷ in_order r) in
      elim (Ordering-cases (cmp e p)) [
        | inl j ↦ rw (j, slot) (omega (arith, left, total))
        | inr (inl j) ↦ rw (j, slot) (omega (arith, right, total))
        | inr (inr j) ↦ rw (j, slot) (omega (arith, right, total))
      ]

  pub Fits-slot :
      (k : ℕ) (s : Shape) (ctx : List Step)
      → RedBlack k s
      → Fits k (shade s) ctx
      → Fits 0 black (slot s ctx)
  unfolding RedBlack Fits slot
  Fits-slot k leaf ctx b f = subst (λ m. Fits m black ctx) b f
  Fits-slot k (node red l p r) ctx b f =
      let left = Fits-slot k l (step left_side red p r ∷ ctx) b.0 (b.2, b.1, b.3, f) in
      let right = Fits-slot k r (step right_side red p l ∷ ctx) b.1 (b.3, b.0, b.2, f) in
      elim (Ordering-cases (cmp e p)) [
        | inl j ↦ rw (j, slot) left
        | inr (inl j) ↦ rw (j, slot) right
        | inr (inr j) ↦ rw (j, slot) right
      ]
  Fits-slot zero (node black l p r) ctx b f = elim b [ ]
  Fits-slot (suc k) (node black l p r) ctx b f =
      let left = Fits-slot k l (step left_side black p r ∷ ctx) b.0 (b.1, f) in
      let right = Fits-slot k r (step right_side black p l ∷ ctx) b.1 (b.0, f) in
      elim (Ordering-cases (cmp e p)) [
        | inl j ↦ rw (j, slot) left
        | inr (inl j) ↦ rw (j, slot) right
        | inr (inr j) ↦ rw (j, slot) right
      ]
