-- ===== src/RbTree/Recolor.antt =====
-- What a change of colour of src/rbtree.rs does to a tree.
use rtsched.Base.{
  ℕ, ◌+◌, ◌≤◌, Ptr, Option, some, List, [], ◌∷◌, ◌≡◌, ◌∙◌, ap, sym, refl, subst, arith, update,
  update_self,
}
use rtsched.RbTree.{
  RbNode, RbTree, Color, black, Side, left_side, right_side, flip, set_color, set_color_of,
}
use rtsched.RbTree.Shape.{
  Shape, leaf, node, Step, step, root_of, top, cell, join, plug, in_order, Along, At, At-up,
  At-down, count, count_along, count-join, root_of-join, Below-join, join-Below, hit, hit_self,
  At-plug,
}
use rtsched.RbTree.Frames.{Below-Agree, Along-Agree, Agree-update}
use rtsched.RbTree.Balance.{
  RedBlack, blacken, RedBlack-blacken, in_order-blacken, shade-blacken, Linked,
}

color-cell :
    (d : Side) (c c' : Color) (up near far : Option Ptr)
    → record (cell d c up near far) { color = c' } ≡ cell d c' up near far
color-cell left_side c c' up near far = refl
color-cell right_side c c' up near far = refl

pub At-set_color :
    (t : RbTree) (d : Side) (c c' : Color) (a : Shape) (p : Ptr) (b : Shape) (ctx : List Step)
    → At t ctx (join d c a p b)
    → At (set_color t p c') ctx (join d c' a p b)
At-set_color t d c c' a p b ctx v =
    let n = record (t.nodes p) { color = c' } in
    let h = update t.nodes p n in
    let w = Below-join t.nodes (top ctx) d c a p b v.below in
    let once : (q : Ptr) → count_along q ctx + (hit q p + count q a + count q b) ≤ 1 =
      λ q. omega (arith, v.once q, count-join q d c a p b) in
    record {
      along = subst (Along h t.root ctx) (root_of-join d c a p b ∙ sym (root_of-join d c' a p b)) (
          Along-Agree t.nodes h t.root ctx (root_of (join d c a p b))
            (Agree-update t.nodes p n (λ q. count_along q ctx) (omega (arith, once p, hit_self p)))
            v.along);
      below =
          join-Below h (top ctx) d c' a p b
            (update_self t.nodes p n
              ∙ ap (λ (m : RbNode). record m { color = c' }) w.0
              ∙ color-cell d c c' (top ctx) (root_of a) (root_of b))
            (Below-Agree t.nodes h (some p) a
              (Agree-update t.nodes p n (λ q. count q a) (omega (arith, once p, hit_self p))) w.1)
            (Below-Agree t.nodes h (some p) b
              (Agree-update t.nodes p n (λ q. count q b) (omega (arith, once p, hit_self p))) w.2);
      once = λ q. omega (arith, once q, count-join q d c' a p b);
    }

pub join-flip :
    (d : Side) (c : Color) (a : Shape) (p : Ptr) (b : Shape)
    → join (flip d) c a p b ≡ join d c b p a
join-flip left_side c a p b = refl
join-flip right_side c a p b = refl

-- The near child, and the far one.
pub At-set_color_near :
    (t : RbTree) (d d' : Side) (c e e' : Color) (a : Shape) (q : Ptr) (b : Shape) (p : Ptr)
    (far : Shape) (ctx : List Step)
    → At t ctx (join d c (join d' e a q b) p far)
    → At (set_color t q e') ctx (join d c (join d' e' a q b) p far)
At-set_color_near t d d' e c e' a q b p far ctx v =
    At-up (set_color t q e') d e p far ctx (join d' e' a q b) (
      At-set_color t d' c e' a q b (step d e p far ∷ ctx)
        (At-down t d e p far ctx (join d' c a q b) v))

pub At-set_color_far :
    (t : RbTree) (d d' : Side) (c e e' : Color) (a : Shape) (q : Ptr) (b : Shape) (p : Ptr)
    (near : Shape) (ctx : List Step)
    → At t ctx (join d c near p (join d' e a q b))
    → At (set_color t q e') ctx (join d c near p (join d' e' a q b))
At-set_color_far t d d' c e e' a q b p near ctx v =
    subst (At (set_color t q e') ctx) (join-flip d c (join d' e' a q b) p near) (
      At-set_color_near t (flip d) d' c e e' a q b p near ctx
        (subst (At t ctx) (sym (join-flip d c (join d' e a q b) p near)) v))

-- The focus moves to the other subtree of the parent.
pub At-flip :
    (t : RbTree) (d : Side) (c : Color) (p : Ptr) (far : Shape) (ctx : List Step) (s : Shape)
    → At t (step d c p far ∷ ctx) s
    → At t (step (flip d) c p s ∷ ctx) far
At-flip t left_side c p far ctx s v =
    At-down t right_side c p s ctx far (At-up t left_side c p far ctx s v)
At-flip t right_side c p far ctx s v =
    At-down t left_side c p s ctx far (At-up t right_side c p far ctx s v)

pub flip-At :
    (t : RbTree) (d : Side) (c : Color) (p : Ptr) (far : Shape) (ctx : List Step) (s : Shape)
    → At t (step (flip d) c p s ∷ ctx) far
    → At t (step d c p far ∷ ctx) s
flip-At t left_side c p far ctx s v = At-flip t right_side c p s ctx far v
flip-At t right_side c p far ctx s v = At-flip t left_side c p s ctx far v

At-blacken_root :
    (t : RbTree) (s : Shape) → At t [] s → At (set_color_of t t.root black) [] (blacken s)
unfolding Along
At-blacken_root t leaf v = subst (λ r. At (set_color_of t r black) [] leaf) (sym v.along) v
At-blacken_root t (node c l p r) v =
    subst (λ x. At (set_color_of t x black) [] (node black l p r)) (sym v.along)
      (At-set_color t left_side c black l p r [] v)

-- The end of both fixup loops: the root is blackened.
pub Linked-settle :
    (t : RbTree) (n : ℕ) (ctx : List Step) (s : Shape)
    → At t ctx s
    → RedBlack n (plug ctx s)
    → Linked (set_color_of t t.root black) (in_order (plug ctx s))
Linked-settle t n ctx s v b =
    let w = RedBlack-blacken n (plug ctx s) b in
    record {
      shape = blacken (plug ctx s);
      height = w.0;
      at = At-blacken_root t (plug ctx s) (At-plug t ctx s v);
      balanced = w.1;
      root_black = shade-blacken (plug ctx s);
      order = in_order-blacken (plug ctx s);
    }
