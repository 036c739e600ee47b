-- ===== src/RbTree/ReadsOf.antt =====
-- The reads of src/rbtree.rs on a whole tree: they are those of the ascending sequence.
use rtsched.Base.{
  suc, ◌+◌, ◌≤◌, ◌<◌, Ptr, none, some, List, [], ◌∷◌, ◌++◌, ◌≡◌, ◌∙◌, ap, sym, refl, arith, length,
  length-append, ◌∈◌, ◌∉◌, ==_refl, append_assoc,
}
use rtsched.Kernel.{done}
use rtsched.RbTree.{
  RbNode, RbTree, Color, left_side, right_side, minimum, maximum, first, last, next, descend_to,
}
use rtsched.RbTree.Shape.{
  Shape, leaf, node, Step, step, plug, in_order, Below, Along, At, count, count_along, hit,
  hit_self,
}
use rtsched.RbTree.Balance.{Holds}
use rtsched.RbTree.Inserted.{has-append}
use rtsched.RbTree.Locate.{before, after, in_order-around, Holds-locate}
use rtsched.RbTree.Reads.{descend_to-first, descend_to-last, climb_lem, first-append}
use rtsched.Tree

-- `first` and `last` of a tree that holds a sequence return the ends of the sequence, and null for the
-- empty one.
pub first-last-Holds :
    (t : RbTree) (xs : List Ptr)
    → Holds t xs
    → (first t ≡ done (Tree.first xs)) × (last t ≡ done (Tree.last xs))
unfolding Along first last minimum maximum
first-last-Holds t xs h =
    let w = h.linked in
    let size : length (in_order w.shape) < suc t.len = omega (arith, ap length w.order, h.len) in
    (
      ap (descend_to left_side (suc t.len) t) w.at.along
          ∙ descend_to-first (suc t.len) t none w.shape w.at.below size
          ∙ ap (λ ys. done (Tree.first ys)) w.order,
      ap (descend_to right_side (suc t.len) t) w.at.along
          ∙ descend_to-last (suc t.len) t none w.shape w.at.below size
          ∙ ap (λ ys. done (Tree.last ys)) w.order,
    )

pub has-in_order : (a : Ptr) (s : Shape) → count a s ≡ 0 → a ∉ in_order s
unfolding count in_order
has-in_order a leaf z = refl
has-in_order a (node c l p r) z =
    ground (arith, has-append a (in_order l) (p ∷ in_order r), has-in_order a l, has-in_order a r)

pub has-before : (a : Ptr) (ctx : List Step) → count_along a ctx ≡ 0 → a ∉ before ctx
unfolding count_along before
has-before a [] z = refl
has-before a (step left_side c p far ∷ ctx) z = has-before a ctx (omega arith)
has-before a (step right_side c p far ∷ ctx) z = ground (
  arith,
  has-append a (before ctx) (in_order far ++ p ∷ []),
  has-append a (in_order far) (p ∷ []),
  has-before a ctx,
  has-in_order a far,
)

pub length-plug :
    (ctx : List Step) (s : Shape)
    → length ctx + length (in_order s) ≤ length (in_order (plug ctx s))
unfolding plug in_order
length-plug [] s = omega arith
length-plug (step left_side c p far ∷ ctx) s =
    omega (arith, length-plug ctx (node c s p far), length-append (in_order s) (p ∷ in_order far))
length-plug (step right_side c p far ∷ ctx) s =
    omega (arith, length-plug ctx (node c far p s), length-append (in_order far) (p ∷ in_order s))

next-append : (e : Ptr) (xs ys : List Ptr) → e ∉ xs → Tree.next e (xs ++ ys) ≡ Tree.next e ys
next-append e [] ys out = refl
next-append e (x ∷ xs) ys out = ground (arith, next-append e xs ys)

next_self : (e : Ptr) (ys : List Ptr) → Tree.next e (e ∷ ys) ≡ Tree.first ys
next_self e ys = ground (arith, ==_refl e)

-- The successor in the order around a node.
next-around :
    (e : Ptr) (c : Color) (l r : Shape) (ctx : List Step)
    → count_along e ctx ≡ 0
    → count e l ≡ 0
    → Tree.next e (in_order (plug ctx (node c l e r))) ≡ Tree.first (in_order r ++ after ctx)
unfolding in_order
next-around e c l r ctx z z' =
    ap (Tree.next e) (in_order-around ctx (node c l e r))
    ∙ next-append e (before ctx) (in_order (node c l e r) ++ after ctx) (has-before e ctx z)
    ∙ ap (Tree.next e) (append_assoc (in_order l) (e ∷ in_order r) (after ctx))
    ∙ next-append e (in_order l) (e ∷ (in_order r ++ after ctx)) (has-in_order e l z')
    ∙ next_self e (in_order r ++ after ctx)

next_located :
    (t : RbTree) (e : Ptr) (c : Color) (l r : Shape) (ctx : List Step)
    → At t ctx (node c l e r)
    → length ctx + length (in_order r) < suc t.len
    → next t e ≡ done (Tree.first (in_order r ++ after ctx))
unfolding next minimum Below in_order after
next_located t e c l leaf ctx v short =
    rw (next, ap (λ (m : RbNode). m.right) v.below.0, ap (λ (m : RbNode). m.parent) v.below.0)
      (climb_lem (suc t.len) t ctx (node c l e leaf) e refl v (omega arith))
next_located t e c l (node c' l' q r') ctx v short =
    rw (next, ap (λ (m : RbNode). m.right) v.below.0)
      (descend_to-first (suc t.len) t (some e) (node c' l' q r') v.below.2 (omega arith)
        ∙ ap done (sym (first-append (in_order l') q (in_order r') (after ctx))))

-- `next` of a linked entity returns the entity that follows it in the sequence, and null for the last
-- one.
pub next-Holds :
    (t : RbTree) (xs : List Ptr) (e : Ptr) → Holds t xs → e ∈ xs → next t e ≡ done (Tree.next e xs)
unfolding in_order count
next-Holds t xs e h m =
    let w = Holds-locate t e xs h m in
    let s = node w.color w.left e w.right in
    let one : count_along e w.ctx + (hit e e + count e w.left + count e w.right) ≤ 1 =
      w.at.once e in
    next_located t e w.color w.left w.right w.ctx w.at (
      omega (
        arith,
        length-plug w.ctx s,
        ap length w.order,
        h.len,
        length-append (in_order w.left) (e ∷ in_order w.right),
      ))
    ∙ ap done (
        sym (
          sym (ap (Tree.next e) w.order)
          ∙ next-around e w.color w.left w.right w.ctx (omega (arith, hit_self e, one))
              (omega (arith, hit_self e, one))))
