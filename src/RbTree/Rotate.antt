-- ===== src/RbTree/Rotate.antt =====
-- What the rotations of src/rbtree.rs do to a subtree.
use rtsched.Base.{
  ◌+◌, ◌≤◌, Ptr, Option, none, some, List, ◌≡◌, ◌∙◌, ap, ap₂, sym, refl, arith, subst, if-of,
  same_ptr,
}
use rtsched.Kernel.{done, Returns}
use rtsched.RbTree.{
  RbNode, RbTree, Color, Side, left_side, right_side, flip, child, with_child, set_child,
  set_parent, set_parent_of, replace_child, rotated, rotate,
}
use rtsched.RbTree.Shape.{
  Shape, Step, root_of, top, cell, join, count, count-join, root_of-join, Below-join, join-Below,
  count_along, hit, At, Along,
}
use rtsched.RbTree.Frames.{child-cell, with_child-cell}
use rtsched.RbTree.Pieces.{
  Pieces, write_x, write_y, write_b, write_link, far_child-cell, parent-cell, cell-parent,
}

pub len-set_parent_of : (t : RbTree) (x v : Option Ptr) → (set_parent_of t x v).len ≡ t.len
len-set_parent_of t none v = refl
len-set_parent_of t (some p) v = refl

pub len-replace_child :
    (d : Side) (t : RbTree) (x : Ptr) (up v : Option Ptr) → (replace_child d t x up v).len ≡ t.len
unfolding replace_child
len-replace_child d t x none v = refl
len-replace_child d t x (some p) v =
    if-of (λ t1. t1.len ≡ t.len) (same_ptr (some x) (child d (t.nodes p))) (set_child d t p v)
      (set_child (flip d) t p v) (λ _. refl) (λ _. refl)

len-rotated : (d : Side) (t : RbTree) (x y : Ptr) → (rotated d t x y).len ≡ t.len
len-rotated d t x y =
    let t1 = set_child (flip d) t x (child d (t.nodes y)) in
    let t2 = set_parent_of t1 (child d (t1.nodes y)) (some x) in
    let t3 = set_parent t2 y (t2.nodes x).parent in
    len-replace_child d t3 x (t3.nodes x).parent (some y)
    ∙ len-set_parent_of t1 (child d (t1.nodes y)) (some x)

-- The writes that remain after the second, the third and the fourth, from the parent that is read.
abbrev after_3 : Side → RbTree → Ptr → Ptr → Option Ptr → RbTree
after_3 d t x y up =
    let t4 = replace_child d t x up (some y) in
    let t5 = set_child d t4 y (some x) in set_parent t5 x (some y)

abbrev after_2 : Side → RbTree → Ptr → Ptr → Option Ptr → RbTree
after_2 d t x y up = let t3 = set_parent t y up in after_3 d t3 x y (t3.nodes x).parent

abbrev after_1 : Side → RbTree → Ptr → Ptr → Option Ptr → RbTree
after_1 d t x y b = let t2 = set_parent_of t b (some x) in after_2 d t2 x y (t2.nodes x).parent

module _ (d : Side) (cx cy : Color) (x y : Ptr) (a b e : Shape) (ctx : List Step)
    (once : (p : Ptr)
      → count_along p ctx + (hit p x + count p a + (hit p y + count p b + count p e)) ≤ 1) where
  abbrev Loose :
      RbTree → Option Ptr → Option Ptr → Option Ptr → Option Ptr → Option Ptr → Option Ptr → Type 0
  Loose t up_x far_x up_y near_y up_b link =
      Pieces x y a b e ctx once t (cell d cx up_x (root_of a) far_x)
        (cell d cy up_y near_y (root_of e)) up_b link

  after_3_lem :
      (t : RbTree)
      → Loose t (top ctx) (root_of b) (top ctx) (root_of b) (some x) (some x)
      → At (after_3 d t x y (top ctx)) ctx (join d cy (join d cx a x b) y e)
  after_3_lem t v =
      let t4 = replace_child d t x (top ctx) (some y) in
      let v4 = write_link x y a b e ctx once d t _ _ (some x) (some y) v in
      let v5 =
        write_y x y a b e ctx once t4 _ _ (with_child d (some x) (t4.nodes y))
          (cell d cy (top ctx) (some x) (root_of e)) (some x) (some y)
          (ap (with_child d (some x)) v4.at_y
            ∙ with_child-cell d cy (top ctx) (root_of b) (root_of e) (some x))
          v4 in
      let t5 = set_child d t4 y (some x) in
      let v6 =
        write_x x y a b e ctx once t5 _ _ (record (t5.nodes x) { parent = some y })
          (cell d cx (some y) (root_of a) (root_of b)) (some x) (some y)
          (ap (λ (n : RbNode). record n { parent = some y }) v5.at_x
            ∙ parent-cell d cx (top ctx) (root_of a) (root_of b) (some y))
          v5 in
      let t6 = after_3 d t x y (top ctx) in
      record {
        along = rw (root_of-join d cy (join d cx a x b) y e) v6.along;
        below =
            join-Below t6.nodes (top ctx) d cy (join d cx a x b) y e
              (rw (root_of-join d cx a x b) v6.at_y)
              (join-Below t6.nodes (some y) d cx a x b v6.at_x v6.below_a v6.below_b) v6.below_e;
        once = λ p.
            omega (arith, once p, count-join p d cy (join d cx a x b) y e, count-join p d cx a x b);
      }

  after_2_lem :
      (t : RbTree)
      → Loose t (top ctx) (root_of b) (some x) (root_of b) (some x) (some x)
      → At (after_2 d t x y (top ctx)) ctx (join d cy (join d cx a x b) y e)
  after_2_lem t v =
      let t3 = set_parent t y (top ctx) in
      let v3 =
        write_y x y a b e ctx once t _ _ (record (t.nodes y) { parent = top ctx })
          (cell d cy (top ctx) (root_of b) (root_of e)) (some x) (some x)
          (ap (λ (n : RbNode). record n { parent = top ctx }) v.at_y
            ∙ parent-cell d cy (some x) (root_of b) (root_of e) (top ctx))
          v in
      subst (λ up. At (after_3 d t3 x y up) ctx (join d cy (join d cx a x b) y e))
        (sym (
          ap (λ (n : RbNode). n.parent) v3.at_x
          ∙ cell-parent d cx (top ctx) (root_of a) (root_of b)))
        (after_3_lem t3 v3)

  after_1_lem :
      (t : RbTree)
      → Loose t (top ctx) (root_of b) (some x) (root_of b) (some y) (some x)
      → At (after_1 d t x y (root_of b)) ctx (join d cy (join d cx a x b) y e)
  after_1_lem t v =
      let t2 = set_parent_of t (root_of b) (some x) in
      let v2 = write_b x y a b e ctx once t _ _ (some y) (some x) (some x) v in
      subst (λ up. At (after_2 d t2 x y up) ctx (join d cy (join d cx a x b) y e))
        (sym (
          ap (λ (n : RbNode). n.parent) v2.at_x
          ∙ cell-parent d cx (top ctx) (root_of a) (root_of b)))
        (after_2_lem t2 v2)

  rotated_lem :
      (t : RbTree)
      → Loose t (top ctx) (some y) (some x) (root_of b) (some y) (some x)
      → At (rotated d t x y) ctx (join d cy (join d cx a x b) y e)
  rotated_lem t v =
      let near = ap (child d) v.at_y ∙ (child-cell d cy (some x) (root_of b) (root_of e)).0 in
      let t1 = set_child (flip d) t x (child d (t.nodes y)) in
      let v1 =
        write_x x y a b e ctx once t _ _ (with_child (flip d) (child d (t.nodes y)) (t.nodes x))
          (cell d cx (top ctx) (root_of a) (root_of b)) (some y) (some x)
          (ap₂ (with_child (flip d)) near v.at_x
            ∙ far_child-cell d cx (top ctx) (root_of a) (some y) (root_of b))
          v in
      subst (λ q. At (after_1 d t1 x y q) ctx (join d cy (join d cx a x b) y e))
        (sym (ap (child d) v1.at_y ∙ (child-cell d cy (some x) (root_of b) (root_of e)).0))
        (after_1_lem t1 v1)

rotate-rotated :
    (d : Side) (t : RbTree) (x y : Ptr)
    → child (flip d) (t.nodes x) ≡ some y
    → rotate d t x ≡ done (rotated d t x y)
unfolding rotate
rotate-rotated left_side t x y e = rw e refl
rotate-rotated right_side t x y e = rw e refl

-- A rotation at a node whose far child is a node.
pub rotate_lem :
    (d : Side) (cx cy : Color) (x y : Ptr) (a b e : Shape) (ctx : List Step) (t : RbTree)
    → At t ctx (join d cx a x (join d cy b y e))
    → Returns (λ t'. At t' ctx (join d cy (join d cx a x b) y e) × (t'.len ≡ t.len)) (rotate d t x)
rotate_lem d cx cy x y a b e ctx t v =
    let s = join d cy b y e in
    let once : (p : Ptr)
        → count_along p ctx + (hit p x + count p a + (hit p y + count p b + count p e)) ≤ 1 =
      λ p. omega (arith, v.once p, count-join p d cx a x s, count-join p d cy b y e) in
    let v0 = Below-join t.nodes (top ctx) d cx a x s v.below in
    let v1 = Below-join t.nodes (some x) d cy b y e v0.2 in
    let at_x : t.nodes x ≡ cell d cx (top ctx) (root_of a) (some y) =
      v0.0 ∙ ap (cell d cx (top ctx) (root_of a)) (root_of-join d cy b y e) in
    let far = ap (child (flip d)) at_x ∙ (child-cell d cx (top ctx) (root_of a) (some y)).1 in
    subst (Returns (λ t'. At t' ctx (join d cy (join d cx a x b) y e) × (t'.len ≡ t.len)))
      (sym (rotate-rotated d t x y far))
      (
        rotated_lem d cx cy x y a b e ctx once t (record {
          at_x = at_x;
          at_y = v1.0;
          below_a = v0.1;
          below_b = v1.1;
          below_e = v1.2;
          along = subst (λ q. Along t.nodes t.root ctx q) (root_of-join d cx a x s) v.along;
        }),
        len-rotated d t x y,
      )

-- A rotation at a node whose near child is a node: the child comes up on that side.
pub flip-rotate_lem :
    (d : Side) (cx cy : Color) (x y : Ptr) (a b e : Shape) (ctx : List Step) (t : RbTree)
    → At t ctx (join d cx (join d cy e y b) x a)
    → Returns
        (λ t'. At t' ctx (join d cy e y (join d cx b x a)) × (t'.len ≡ t.len))
        (rotate (flip d) t x)
flip-rotate_lem left_side cx cy x y a b e ctx t v = rotate_lem right_side cx cy x y a b e ctx t v
flip-rotate_lem right_side cx cy x y a b e ctx t v = rotate_lem left_side cx cy x y a b e ctx t v
