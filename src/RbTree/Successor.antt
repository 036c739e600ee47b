-- ===== src/RbTree/Successor.antt =====
-- `remove` in src/rbtree.rs for a node with two children: its successor takes its place.
use rtsched.Base.{ℕ, Ptr, Option, some, List, ◌∷◌, ◌++◌, ◌≡◌, ◌∙◌, ap, sym, subst, update_self}
use rtsched.Kernel.{Result, done, Returns, Returns->>=, ◌>>=◌}
use rtsched.RbTree.{
  RbNode, RbTree, Color, left_side, right_side, set_child, set_parent, set_color, deref,
}
use rtsched.RbTree.Remove.{Unlinked, transplant, replace_with_successor, detach_successor}
use rtsched.RbTree.Shape.{Shape, leaf, node, Step, step, top, plug, in_order, Below, At, At-down}
use rtsched.RbTree.Balance.{RedBlack, Fits}
use rtsched.RbTree.Locate.{Fits-down}
use rtsched.RbTree.Transplant.{filled}
use rtsched.RbTree.Least.{
  path, least, least_color, least_right, without, At-path, At-without, in_order-without, plug-path,
  Fits-path, Fits-rename,
}
use rtsched.RbTree.Detach.{IsDetached, detach_successor_lem, len-transplant}
use rtsched.RbTree.Unlink.{
  Gap, Lost, Lost-right, around, around_lem, in_order-node, swapped, swapped-At,
}

-- What follows the successor's removal from the right subtree.
abbrev put_in_place : RbTree → Ptr → Ptr → RbTree × Option Ptr → Result Unlinked
put_in_place t e y (t1, x_parent) =
    let t2 = transplant t1 e (some y) in
    let t3 = set_child left_side t2 y (t2.nodes e).left in
    deref (t3.nodes y).left >>= λ l.
    let t4 = set_parent t3 l (some y) in
    done (record {
      tree = set_color t4 y (t4.nodes e).color;
      x = (t.nodes y).right;
      x_parent = x_parent;
      lost_color = (t.nodes y).color;
    })

abbrev in_place : RbTree → Ptr → Option Ptr → RbTree → Unlinked
in_place t y x_parent t1 = record {
  tree = t1;
  x = (t.nodes y).right;
  x_parent = x_parent;
  lost_color = (t.nodes y).color;
}

put_in_place-swapped :
    (t t1 : RbTree) (cn : Color) (e y pl : Ptr) (ctx : List Step) (x_parent : Option Ptr)
    → ((transplant t1 e (some y)).nodes e).left ≡ some pl
    → ((filled left_side (transplant t1 e (some y)) y (some pl)).nodes e).color ≡ cn
    → put_in_place t e y (t1, x_parent) ≡ done (in_place t y x_parent (swapped t cn e ctx t1 y pl))
put_in_place-swapped t t1 cn e y pl ctx x_parent link color =
    let t2 = transplant t1 e (some y) in
    let t3 = set_child left_side t2 y (some pl) in
    let t4 = set_parent t3 pl (some y) in
    let out = in_place t y x_parent in
    ap
      (λ x.
        let t3 = set_child left_side t2 y x in
        deref (t3.nodes y).left >>= λ l.
        let t4 = set_parent t3 l (some y) in done (out (set_color t4 y (t4.nodes e).color)))
      link
    ∙ ap
        (λ x. deref x >>= λ l.
          let t4 = set_parent t3 l (some y) in done (out (set_color t4 y (t4.nodes e).color)))
        (ap (λ (n : RbNode). n.left) (update_self t2.nodes y _))
    ∙ ap (λ c. done (out (set_color t4 y c))) color

-- The gap where the successor stood, in a tree in which it stands in the place of the node.
successor-Gap :
    (t tree : RbTree) (cn : Color) (e : Ptr) (ctx : List Step) (x_parent : Option Ptr) (k : ℕ)
    (ln l : Shape) (c : Color) (p : Ptr) (r : Shape)
    → At t (step right_side cn e ln ∷ ctx) (node c l p r)
    → RedBlack k (node c l p r)
    → Fits k c (step right_side cn e ln ∷ ctx)
    → x_parent ≡ top (path l c p r (step right_side cn (least l p) ln ∷ ctx))
    → At tree ctx (node cn ln (least l p) (without l c p r))
    → Gap (in_place t (least l p) x_parent tree) (around ctx ln (node c l p r))
unfolding Below plug
successor-Gap t tree cn e ctx x_parent k ln l c p r v b f i w =
    let y = least l p in
    let rest = without l c p r in
    let new = step right_side cn y ln ∷ ctx in
    let v2 = At-path t l c p r (step right_side cn e ln ∷ ctx) v in
    let (m, bm, fm) = Fits-path k l c p r new b (Fits-rename k c right_side cn e y ln ctx f) in
    record {
      ctx = path l c p r new;
      focus = least_right l r;
      height = m;
      at = At-without tree l c p r new (At-down tree right_side cn y ln ctx rest w);
      at_x = sym (ap (λ (n : RbNode). n.right) v2.below.0);
      at_parent = i;
      lost =
          subst (λ c. Lost m c (least_right l r)) (sym (ap (λ (n : RbNode). n.color) v2.below.0))
            (Lost-right m (least_color l c) leaf y (least_right l r) bm);
      fits =
          subst (λ e. Fits m e (path l c p r new)) (sym (ap (λ (n : RbNode). n.color) v2.below.0))
            fm;
      order =
          ap in_order (plug-path l c p r new)
          ∙ around_lem ctx (node cn ln y rest) ln (node c l p r) (
              in_order-node cn ln y rest
              ∙ ap (λ ys. in_order ln ++ ys) (sym (in_order-without l c p r)));
    }

pub replace_with_successor_lem :
    (t : RbTree) (cn : Color) (e : Ptr) (ctx : List Step) (k : ℕ) (cl : Color) (ll : Shape)
    (pl : Ptr) (lr l : Shape) (c : Color) (p : Ptr) (r : Shape)
    → At t ctx (node cn (node cl ll pl lr) e (node c l p r))
    → RedBlack k (node cn (node cl ll pl lr) e (node c l p r))
    → Fits k cn ctx
    → Returns
        (λ u. Gap u (around ctx (node cl ll pl lr) (node c l p r)) × (u.tree.len ≡ t.len))
        (replace_with_successor t e (least l p))
replace_with_successor_lem t cn e ctx k cl ll pl lr l c p r v b f =
    let ln = node cl ll pl lr in
    let y = least l p in
    let v1 = At-down t right_side cn e ln ctx (node c l p r) v in
    let parts = Fits-down k cn ln e (node c l p r) ctx b f in
    let P = λ (u : Unlinked). Gap u (around ctx ln (node c l p r)) × (u.tree.len ≡ t.len) in
    Returns->>= (IsDetached t cn ln e c p r ctx l) P (detach_successor t e y) (put_in_place t e y)
      (detach_successor_lem t cn ln e c p r ctx l v1)
      (λ (t1, x_parent) (d, i, len).
        let (v3, link, color) =
          swapped-At t cn e ctx t1 (least_color l c) y cl ll pl lr (without l c p r) d in
        subst (Returns P) (sym (put_in_place-swapped t t1 cn e y pl ctx x_parent link color)) (
          successor-Gap t (swapped t cn e ctx t1 y pl) cn e ctx x_parent parts.0 ln l c p r v1
              parts.2 parts.4 i v3,
          len-transplant t1 e (some y) ∙ len,
        ))
