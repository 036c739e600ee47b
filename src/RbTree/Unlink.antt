-- ===== src/RbTree/Unlink.antt =====
-- `remove` in src/rbtree.rs up to the fixup: the entity is out of the links, and what its place has lost.
use rtsched.Base.{
  ℕ, suc, zero, ◌+◌, ◌≤◌, Ptr, Option, some, List, ◌∷◌, ◌++◌, ◌≡◌, ◌∙◌, ap, refl, arith,
}
use rtsched.RbTree.{RbNode, RbTree, Color, red, black, left_side, set_color}
use rtsched.RbTree.Remove.{Unlinked, transplant}
use rtsched.RbTree.Shape.{
  Shape, leaf, node, Step, root_of, top, plug, in_order, count, count_along, hit, hit_self, Below,
  At,
}
use rtsched.RbTree.Frames.{Below-Agree}
use rtsched.RbTree.Balance.{shade, RedBlack, Fits}
use rtsched.RbTree.Recolor.{At-set_color}
use rtsched.RbTree.Locate.{before, after, in_order-around}
use rtsched.RbTree.Transplant.{transplant_lem, Agree-transplant, filled, filled_lem, Agree-filled}
use rtsched.RbTree.Detach.{Detached, count-node}

-- What is left of a tree of black height `n` with a root of the given colour, when the root is gone.
unfoldable pub Lost : ℕ → Color → Shape → Type 0
unfolding RedBlack
Lost n red s = RedBlack n s × (shade s ≡ black)
Lost zero black s = ⊥
Lost (suc n) black s = RedBlack n s

pub Lost-right :
    (n : ℕ) (c : Color) (l : Shape) (p : Ptr) (s : Shape) → RedBlack n (node c l p s) → Lost n c s
unfolding Lost RedBlack
Lost-right n red l p s b = (b.1, b.3)
Lost-right zero black l p s b = b
Lost-right (suc n) black l p s b = b.1

pub Lost-left :
    (n : ℕ) (c : Color) (s : Shape) (p : Ptr) (r : Shape) → RedBlack n (node c s p r) → Lost n c s
unfolding Lost RedBlack
Lost-left n red s p r b = (b.0, b.2)
Lost-left zero black s p r b = b
Lost-left (suc n) black s p r b = b.0

-- The tree without the entity: a subtree stands where a node of the lost colour stood.
pub record Gap (u : Unlinked) (xs : List Ptr) : Type 0 where
  pub ctx : List Step
  pub focus : Shape
  pub height : ℕ
  pub at : At u.tree ctx focus
  pub at_x : root_of focus ≡ u.x
  pub at_parent : u.x_parent ≡ top ctx
  pub lost : Lost height u.lost_color focus
  pub fits : Fits height u.lost_color ctx
  pub order : in_order (plug ctx focus) ≡ xs

pub in_order-node :
    (c : Color) (l : Shape) (p : Ptr) (r : Shape)
    → in_order (node c l p r) ≡ in_order l ++ p ∷ in_order r
unfolding in_order
in_order-node c l p r = refl

abbrev pub around : List Step → Shape → Shape → List Ptr
around ctx l r = before ctx ++ ((in_order l ++ in_order r) ++ after ctx)

pub around_lem :
    (ctx : List Step) (s l r : Shape)
    → in_order s ≡ in_order l ++ in_order r
    → in_order (plug ctx s) ≡ around ctx l r
around_lem ctx s l r i = in_order-around ctx s ∙ ap (λ ys. before ctx ++ (ys ++ after ctx)) i

module _ (t : RbTree) (cn : Color) (e : Ptr) (ctx : List Step) where
  -- With one child, or none.
  pub lone_lem :
      (k : ℕ) (l r s : Shape) (up : Option Ptr)
      → At t ctx (node cn l e r)
      → ((a : Ptr) → count a s ≤ count a l + count a r)
      → Below t.nodes up s
      → Lost k cn s
      → Fits k cn ctx
      → in_order s ≡ in_order l ++ in_order r
      → Gap
          (record {
            tree = transplant t e (root_of s);
            x = root_of s;
            x_parent = top ctx;
            lost_color = cn;
          })
          (around ctx l r)
  unfolding Below count
  lone_lem k l r s up v part below lost fits i = record {
    ctx = ctx;
    focus = s;
    height = k;
    at =
        transplant_lem t e up s ctx (ap (λ (m : RbNode). m.parent) v.below.0)
          (λ a. omega (arith, v.once a, part a)) v.along below;
    at_x = refl;
    at_parent = refl;
    lost = lost;
    fits = fits;
    order = around_lem ctx s l r i;
  }

  -- The writes of the case of two children, once the successor is detached.
  abbrev pub swapped : RbTree → Ptr → Ptr → RbTree
  swapped t1 y pl =
      let t2 = transplant t1 e (some y) in
      let t4 = filled left_side t2 y (some pl) in set_color t4 y cn

  pub swapped-At :
      (t1 : RbTree) (cy : Color) (y : Ptr) (cl : Color) (ll : Shape) (pl : Ptr) (lr rest : Shape)
      → Detached t1 cn (node cl ll pl lr) e cy y rest ctx
      → At (swapped t1 y pl) ctx (node cn (node cl ll pl lr) y rest)
        × (((transplant t1 e (some y)).nodes e).left ≡ some pl)
        × (((filled left_side (transplant t1 e (some y)) y (some pl)).nodes e).color ≡ cn)
  swapped-At t1 cy y cl ll pl lr rest v =
      let ln = node cl ll pl lr in
      let s = node cy leaf y rest in
      let parent = ap (λ (m : RbNode). m.parent) v.at_e in
      let once : (a : Ptr) → count_along a ctx + (hit a e + count a ln) + count a s ≤ 1 =
        λ a. omega (arith, v.once a, count-node a cy y rest) in
      let z : count_along e ctx ≡ 0 = omega (arith, once e, hit_self e) in
      let t2 = transplant t1 e (some y) in
      let v2 =
        transplant_lem t1 e v.up_y s ctx parent (λ a. omega (arith, once a)) v.along v.below_y in
      let at_e =
        Agree-transplant t1 e s ctx (λ a. hit a e) parent z (λ a n. omega (arith, once a))
          (λ a n. omega (arith, once a)) e (omega (arith, hit_self e))
        ∙ v.at_e in
      let below =
        Below-Agree t1.nodes t2.nodes (some e) ln
          (Agree-transplant t1 e s ctx (λ a. count a ln) parent z (λ a n. omega (arith, once a))
            (λ a n. omega (arith, once a)))
          v.below_l in
      let t4 = filled left_side t2 y (some pl) in
      let v4 =
        filled_lem left_side t2 cy y (some e) ln rest ctx (λ a. omega (arith, v.once a)) v2 below in
      (
        At-set_color t4 left_side cy cn ln y rest ctx v4,
        ap (λ (m : RbNode). m.left) at_e,
        ap (λ (m : RbNode). m.color)
            (Agree-filled left_side t2 y ln (λ a. hit a e)
                (omega (arith, once y, v.once y, hit_self y)) (λ a n. omega (arith, once a)) e
                (omega (arith, hit_self e))
              ∙ at_e),
      )
