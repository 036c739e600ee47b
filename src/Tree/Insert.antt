-- ===== src/Tree/Insert.antt =====
-- `RBTree::insert`: the new entity joins the others, and the order is kept.
use rtsched.Base.{
  Ptr, Ordering, ◌≡◌, refl, List, [], ◌∷◌, ◌||◌, arith, All, All-imp, has, ◌∉◌, ◌==◌, inl, inr, ◌⊎◌,
  length, ◌+◌,
}
use rtsched.Tree.{insert}
use rtsched.Tree.Order.{IsStrict, IsSorted}

pub Ordering-cases : (o : Ordering) → (o ≡ Ordering.lt) ⊎ (o ≡ Ordering.eq) ⊎ (o ≡ Ordering.gt)
Ordering-cases Ordering.lt = inl refl
Ordering-cases Ordering.eq = inr (inl refl)
Ordering-cases Ordering.gt = inr (inr refl)

module _ (cmp : Ptr → Ptr → Ordering) where
  pub has-insert : (a e : Ptr) (xs : List Ptr) → has a (insert cmp e xs) ≡ (a == e || has a xs)
  unfolding insert
  has-insert a e [] = refl
  has-insert a e (x ∷ xs) = ground (arith, has-insert a e xs)

  pub length-insert : (e : Ptr) (xs : List Ptr) → length (insert cmp e xs) ≡ length xs + 1
  unfolding insert
  length-insert e [] = omega arith
  length-insert e (x ∷ xs) = ground (arith, length-insert e xs)

  pub All-insert {κ} :
      (P : Ptr → Type κ) (e : Ptr) (xs : List Ptr) → P e → All P xs → All P (insert cmp e xs)
  unfolding insert
  All-insert P e [] p h = (p, tt)
  All-insert P e (x ∷ xs) p h = ground (arith, All-insert P e xs p h.1)

module _ {cmp : Ptr → Ptr → Ordering} (strict : IsStrict cmp) where
  pub insert-IsSorted :
      (e : Ptr) (xs : List Ptr) → e ∉ xs → IsSorted cmp xs → IsSorted cmp (insert cmp e xs)
  unfolding insert
  insert-IsSorted e [] out s = (tt, tt)
  insert-IsSorted e (x ∷ xs) out s = elim (Ordering-cases (cmp e x)) [
    | inl lt ↦ ground (arith, All-imp (λ y h. strict.lt_trans e x y lt h) xs s.0)
    | inr (inl eq) ↦ absurd (ground (arith, strict.eq_of_cmp e x eq))
    | inr (inr gt) ↦
        let rest = insert-IsSorted e xs (ground arith) s.1 in
        let low = All-insert cmp (λ y. cmp x y ≡ Ordering.lt) e xs (strict.lt_of_gt e x gt) s.0 in
        ground (arith, rest, low)
  ]
