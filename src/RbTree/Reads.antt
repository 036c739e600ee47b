-- ===== src/RbTree/Reads.antt =====
-- The reads of src/rbtree.rs on the links, `first`, `last`, `next` and `upper_bound`: what they find of the
-- ascending sequence.
use rtsched.Base.{
  ℕ, suc, zero, ◌<◌, Ptr, Option, some, List, [], ◌∷◌, ◌++◌, ◌≡◌, ◌∙◌, ap, sym, refl, arith, length,
  length-append, ==_refl,
}
use rtsched.Kernel.{done}
use rtsched.RbTree.{RbNode, RbTree, left_side, right_side, descend_to, climb}
use rtsched.RbTree.Shape.{
  Shape, leaf, node, Step, step, root_of, top, in_order, Below, Along, At, At-up, count,
  count_along, count-root_of,
}
use rtsched.RbTree.Frames.{same_ptr-root_of}
use rtsched.RbTree.Locate.{after}
use rtsched.Tree

pub first-append :
    (xs : List Ptr) (q : Ptr) (zs ys : List Ptr)
    → Tree.first ((xs ++ q ∷ zs) ++ ys) ≡ Tree.first (xs ++ q ∷ zs)
first-append [] q zs ys = refl
first-append (x ∷ xs) q zs ys = refl

last-append_cons :
    (p : Ptr) (xs : List Ptr) (q : Ptr) (ys : List Ptr)
    → Tree.last (p ∷ (xs ++ q ∷ ys)) ≡ Tree.last (xs ++ q ∷ ys)
last-append_cons p [] q ys = refl
last-append_cons p (x ∷ xs) q ys = refl

last-append :
    (xs : List Ptr) (p : Ptr) (ys : List Ptr) → Tree.last (xs ++ p ∷ ys) ≡ Tree.last (p ∷ ys)
last-append [] p ys = refl
last-append (x ∷ []) p ys = refl
last-append (x ∷ y ∷ xs) p ys = last-append (y ∷ xs) p ys

-- The descent to one side of a subtree.
pub descend_to-first :
    (n : ℕ) (t : RbTree) (up : Option Ptr) (s : Shape)
    → Below t.nodes up s
    → length (in_order s) < n
    → descend_to left_side n t (root_of s) ≡ done (Tree.first (in_order s))
unfolding descend_to Below in_order
descend_to-first zero t up s b short = absurd (omega arith)
descend_to-first (suc n) t up leaf b short = refl
descend_to-first (suc n) t up (node c leaf p r) b short =
    rw (ap (λ (m : RbNode). m.left) b.0, descend_to) refl
descend_to-first (suc n) t up (node c (node c' l q r') p r) b short =
    let ih =
      descend_to-first n t (some p) (node c' l q r') b.1
        (omega (arith, length-append (in_order l ++ q ∷ in_order r') (p ∷ in_order r))) in
    rw (ap (λ (m : RbNode). m.left) b.0, descend_to)
      (ih ∙ ap done (sym (first-append (in_order l) q (in_order r') (p ∷ in_order r))))

pub descend_to-last :
    (n : ℕ) (t : RbTree) (up : Option Ptr) (s : Shape)
    → Below t.nodes up s
    → length (in_order s) < n
    → descend_to right_side n t (root_of s) ≡ done (Tree.last (in_order s))
unfolding descend_to Below in_order
descend_to-last zero t up s b short = absurd (omega arith)
descend_to-last (suc n) t up leaf b short = refl
descend_to-last (suc n) t up (node c l p leaf) b short =
    rw (ap (λ (m : RbNode). m.right) b.0, descend_to)
      (ap done (sym (last-append (in_order l) p [])))
descend_to-last (suc n) t up (node c l p (node c' l' q r)) b short =
    let ih =
      descend_to-last n t (some p) (node c' l' q r) b.2
        (omega (arith, length-append (in_order l) (p ∷ (in_order l' ++ q ∷ in_order r)))) in
    rw (ap (λ (m : RbNode). m.right) b.0, descend_to)
      (ih
        ∙ ap done (
            sym (last-append_cons p (in_order l') q (in_order r))
            ∙ sym (last-append (in_order l) p (in_order l' ++ q ∷ in_order r))))

-- The climb of `next` from a node that has no right child.
pub climb_lem :
    (n : ℕ) (t : RbTree) (ctx : List Step) (s : Shape) (p : Ptr)
    → root_of s ≡ some p
    → At t ctx s
    → length ctx < n
    → climb n t p (top ctx) ≡ done (Tree.first (after ctx))
unfolding climb after Along count_along
climb_lem zero t ctx s p i v short = absurd (omega arith)
climb_lem (suc n) t [] s p i v short = refl
climb_lem (suc n) t (step left_side c q far ∷ ctx) s p i v short =
    let apart : count p far ≡ 0 = omega (arith, v.once p, count-root_of s p i) in
    rw (climb, ap (λ (m : RbNode). m.right) v.along.0, same_ptr-root_of p far apart) refl
climb_lem (suc n) t (step right_side c q far ∷ ctx) s p i v short =
    rw
      (
        climb,
        ap (λ (m : RbNode). m.right) v.along.0,
        i,
        ==_refl p,
        ap (λ (m : RbNode). m.parent) v.along.0,
      )
      (climb_lem n t ctx (node c far q s) q refl (At-up t right_side c q far ctx s v) (omega arith))
