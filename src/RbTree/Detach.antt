-- ===== src/RbTree/Detach.antt =====
-- `remove` in src/rbtree.rs for a node `e` with two children: its successor `y` is taken out of the right
-- subtree and given the rest of that subtree.
use rtsched.Base.{
  ℕ, ◌+◌, ◌≤◌, Ptr, Bool, true, false, Option, none, some, List, ◌∷◌, ◌≡◌, ◌∙◌, ap, sym, refl,
  subst, arith, update_self, same_ptr, ==_refl,
}
use rtsched.Kernel.{Result, done, Returns, ◌>>=◌}
use rtsched.RbTree.{
  RbNode, RbTree, Color, left_side, right_side, set_child, set_parent, set_parent_of, replace_child,
  deref,
}
use rtsched.RbTree.Remove.{transplant, detach_successor}
use rtsched.RbTree.Shape.{
  Shape, leaf, node, Step, step, root_of, top, cell, count, count_along, count-root_of, hit,
  hit_self, Below, Along, At,
}
use rtsched.RbTree.Frames.{
  Agree, Below-Agree, Along-Agree, Agree-set_parent_of, Below-set_parent_of, root-set_parent_of,
}
use rtsched.RbTree.Rotate.{len-replace_child, len-set_parent_of}
use rtsched.RbTree.Transplant.{Agree-transplant, transplant_lem, filled, Agree-filled, filled-Below}
use rtsched.RbTree.Least.{
  path, least, least_color, least_right, without, At-path, without-At, count-without, top-path,
}

-- The node `e` with its left subtree, and the successor with what is right of `e`.
pub record Detached (t : RbTree) (c : Color) (l : Shape) (e : Ptr) (cy : Color) (y : Ptr)
    (r : Shape) (ctx : List Step) : Type 0 where
  pub up_y : Option Ptr
  pub right_e : Option Ptr
  pub at_e : t.nodes e ≡ cell right_side c (top ctx) right_e (root_of l)
  pub along : Along t.nodes t.root ctx (some e)
  pub below_l : Below t.nodes (some e) l
  pub below_y : Below t.nodes up_y (node cy leaf y r)
  pub once : (a : Ptr) → count_along a ctx + (hit a e + count a l) + (hit a y + count a r) ≤ 1

pub len-transplant : (t : RbTree) (u : Ptr) (v : Option Ptr) → (transplant t u v).len ≡ t.len
len-transplant t u v =
    let t1 = replace_child left_side t u (t.nodes u).parent v in
    len-set_parent_of t1 v (t1.nodes u).parent
    ∙ len-replace_child left_side t u (t.nodes u).parent v

-- Writes to the successor and to the root of its subtree leave the rest in place.
Detached-Agree :
    (t t2 : RbTree) (c : Color) (l : Shape) (e : Ptr) (cy : Color) (y : Ptr) (r s : Shape)
    (ctx : List Step) (up : Option Ptr)
    → ((f : Ptr → ℕ) → f y ≡ 0 → ((p : Ptr) → 1 ≤ count p r → f p ≡ 0) → Agree t.nodes t2.nodes f)
    → t.root ≡ t2.root
    → ((a : Ptr) → count_along a ctx + (hit a e + count a l) + (hit a y + count a r) ≤ 1)
    → Along t.nodes t.root (step right_side c e l ∷ ctx) (root_of s)
    → Below t2.nodes up (node cy leaf y r)
    → Detached t2 c l e cy y r ctx
unfolding Along
Detached-Agree t t2 c l e cy y r s ctx up agree same once v below = record {
  up_y = up;
  right_e = root_of s;
  at_e =
      agree (λ p. hit p e) (omega (arith, once y, hit_self y)) (λ p n. omega (arith, once p)) e
        (omega (arith, hit_self e))
      ∙ v.0;
  along =
      subst (λ x. Along t2.nodes x ctx (some e)) same
        (Along-Agree t.nodes t2.nodes t.root ctx (some e)
          (agree (λ p. count_along p ctx) (omega (arith, once y, hit_self y))
            (λ p n. omega (arith, once p)))
          v.2);
  below_l =
      Below-Agree t.nodes t2.nodes (some e) l
        (agree (λ p. count p l) (omega (arith, once y, hit_self y)) (λ p n. omega (arith, once p)))
        v.1;
  below_y = below;
  once = once;
}

-- The two ways, from the links that are read.
abbrev detach_on :
    RbTree → Ptr → Ptr → Option Ptr → Option Ptr → Bool → Result (RbTree × Option Ptr)
detach_on t e y x up b = elim b [
  | true ↦ done (set_parent_of t x (some y), some y)
  | false ↦
      let t1 = transplant t y x in
      let t2 = set_child right_side t1 y (t1.nodes e).right in
      deref (t2.nodes y).right >>= λ r. done (set_parent t2 r (some y), up)
]

count_leaf : (a : Ptr) → count a leaf ≡ 0
unfolding count
count_leaf a = refl

pub count-node :
    (a : Ptr) (c : Color) (y : Ptr) (r : Shape) → count a (node c leaf y r) ≡ hit a y + count a r
unfolding count
count-node a c y r = omega arith

differ : (e q : Ptr) → hit q e ≡ 0 → same_ptr (some e) (some q) ≡ false
differ e q z = ground arith

hit_ne :
    {t : RbTree} {cn : Color} (e q : Ptr) (ln : Shape) (ctx : List Step) (c : Color) (l : Shape)
    (p : Ptr) (r : Shape)
    → At t (step right_side cn e ln ∷ ctx) (node c l p r)
    → 1 ≤ count q (node c l p r)
    → hit q e ≡ 0
unfolding count_along
hit_ne e q ln ctx c l p r v n = omega (arith, v.once q)

module _ (t : RbTree) (cn : Color) (ln : Shape) (e : Ptr) (c : Color) (p : Ptr) (r : Shape)
    (ctx : List Step) where
  abbrev pub IsDetached : Shape → RbTree × Option Ptr → Type 0
  IsDetached l r0 =
      Detached r0.0 cn ln e (least_color l c) (least l p) (without l c p r) ctx
      × (r0.1 ≡ top (path l c p r (step right_side cn (least l p) ln ∷ ctx)))
      × (r0.0.len ≡ t.len)

  once_of :
      (l : Shape)
      → At t (step right_side cn e ln ∷ ctx) (node c l p r)
      → (a : Ptr)
      → count_along a ctx + (hit a e + count a ln) + (hit a (least l p) + count a (without l c p r))
        ≤ 1
  unfolding count_along
  once_of l v a = omega (arith, v.once a, count-without a l c p r)

  -- The successor is the right child.
  child_lem :
      At t (step right_side cn e ln ∷ ctx) (node c leaf p r)
      → Returns (IsDetached leaf) (detach_successor t e p)
  unfolding least least_color without path Below
  child_lem v =
      let t2 = set_parent_of t (root_of r) (some p) in
      let once = once_of leaf v in
      let right = ap (λ (m : RbNode). m.right) v.below.0 in
      let parent = ap (λ (m : RbNode). m.parent) v.below.0 in
      let agree : (f : Ptr → ℕ)
          → f p ≡ 0
          → ((q : Ptr) → 1 ≤ count q r → f q ≡ 0)
          → Agree t.nodes t2.nodes f =
        λ f z g. Agree-set_parent_of t (root_of r) (some p) f (λ q i. g q (count-root_of r q i)) in
      subst (Returns (IsDetached leaf))
        (sym (
          ap (λ x. detach_on t e p x (t.nodes p).parent (same_ptr (some e) (t.nodes p).parent))
            right
          ∙ ap (λ u. detach_on t e p (root_of r) u (same_ptr (some e) u)) parent
          ∙ ap (detach_on t e p (root_of r) (some e)) (==_refl e)))
        (
          Detached-Agree t t2 cn ln e c p r (node c leaf p r) ctx (some e) agree
              (root-set_parent_of t (root_of r) (some p)) once v.along
              (
                Agree-set_parent_of t (root_of r) (some p) (λ q. hit q p)
                      (λ q i. omega (arith, once q, count-root_of r q i)) p
                      (omega (arith, hit_self p))
                    ∙ v.below.0,
                tt,
                Below-set_parent_of t (some p) (some p) r (λ q. omega (arith, once q)) v.below.2,
              ),
          refl,
          len-set_parent_of t (root_of r) (some p),
        )

  -- The successor is deeper: it is unlinked first.
  deep_lem :
      (c' : Color) (l' : Shape) (p' : Ptr) (r' : Shape)
      → At t (step right_side cn e ln ∷ ctx) (node c (node c' l' p' r') p r)
      → Returns (IsDetached (node c' l' p' r')) (detach_successor t e (least (node c' l' p' r') p))
  unfolding without Below Along
  deep_lem c' l' p' r' v =
      let l = node c' l' p' r' in
      let y = least l p in
      let base = step right_side cn e ln ∷ ctx in
      let yr = least_right l r in
      let rest = without l c p r in
      let once = once_of l v in
      let (q, above, inside) = top-path c' l' p' r' c p r in
      let v2 = At-path t l c p r base v in
      let lone : (a : Ptr) → count_along a (path l c p r base) + (hit a y + count a yr) ≤ 1 =
        λ a. omega (arith, v2.once a, count-node a (least_color l c) y yr) in
      let right = ap (λ (m : RbNode). m.right) v2.below.0 in
      let parent = ap (λ (m : RbNode). m.parent) v2.below.0 in
      let test : same_ptr (some e) (t.nodes y).parent ≡ false =
        ap (same_ptr (some e)) (parent ∙ above base)
        ∙ differ e q (hit_ne e q ln ctx c l p r v inside) in
      let z : count_along y (path l c p r base) ≡ 0 = omega (arith, lone y, hit_self y) in
      let t1 = transplant t y (root_of yr) in
      let v1 = without-At t1 l c p r base (
        transplant_lem t y (some y) yr (path l c p r base) parent (λ a. omega (arith, lone a))
          v2.along v2.below.2) in
      let at_y : t1.nodes y
          ≡ cell right_side (least_color l c) (top (path l c p r base)) (root_of yr) none =
        Agree-transplant t y yr (path l c p r base) (λ a. hit a y) parent z
          (λ a n. omega (arith, lone a)) (λ a n. omega (arith, lone a)) y
          (omega (arith, hit_self y))
        ∙ v2.below.0 in
      let link : (t1.nodes e).right ≡ some p = ap (λ (m : RbNode). m.right) v1.along.0 in
      let t2 = set_child right_side t1 y (some p) in
      let read : (t2.nodes y).right ≡ some p =
        ap (λ (m : RbNode). m.right) (update_self t1.nodes y _) in
      subst (Returns (IsDetached l))
        (sym (
          ap (λ x. detach_on t e y x (t.nodes y).parent (same_ptr (some e) (t.nodes y).parent))
            right
          ∙ ap (detach_on t e y (root_of yr) (t.nodes y).parent) test
          ∙ ap
              (λ x.
                let t2 = set_child right_side t1 y x in
                deref (t2.nodes y).right >>= λ r.
                done (set_parent t2 r (some y), (t.nodes y).parent))
              link
          ∙ ap (λ x. deref x >>= λ r. done (set_parent t2 r (some y), (t.nodes y).parent)) read))
        (
          Detached-Agree t1 (filled right_side t1 y (some p)) cn ln e (least_color l c) y rest rest
              ctx (top (path l c p r base)) (λ f k g. Agree-filled right_side t1 y rest f k g) refl
              once v1.along
              (filled-Below right_side t1 (least_color l c) y (top (path l c p r base)) (root_of yr)
                (some e) rest leaf (λ a. omega (arith, once a, count_leaf a)) at_y v1.below tt),
          parent ∙ above base ∙ sym (above (step right_side cn y ln ∷ ctx)),
          len-transplant t y (root_of yr),
        )

  pub detach_successor_lem :
      (l : Shape)
      → At t (step right_side cn e ln ∷ ctx) (node c l p r)
      → Returns (IsDetached l) (detach_successor t e (least l p))
  unfolding least
  detach_successor_lem leaf v = child_lem v
  detach_successor_lem (node c' l' p' r') v = deep_lem c' l' p' r' v
