-- ===== src/RbTree/Transplant.antt =====
-- `transplant` of src/rbtree.rs, and the links by which `remove` gives a node another child.
use rtsched.Base.{
  ℕ, ◌+◌, ◌≤◌, Ptr, Option, none, some, List, ◌≡◌, ◌∙◌, ap, sym, subst, arith, update_self,
}
use rtsched.RbTree.{
  RbNode, RbTree, Color, Side, left_side, with_child, set_child, set_parent_of, replace_child,
}
use rtsched.RbTree.Remove.{transplant}
use rtsched.RbTree.Shape.{
  Shape, leaf, Step, root_of, top, cell, join, count, count-join, count_along, count-root_of,
  count-top, root_of-join, Below-join, join-Below, hit, hit_self, Below, Along, At,
}
use rtsched.RbTree.Frames.{
  Agree, Agree-trans, Below-Agree, Along-Agree, Agree-update, Agree-set_parent_of,
  Agree-replace_child, Below-set_parent_of, Along-replace_child, with_child-cell,
  root-set_parent_of,
}

-- The writes of `transplant`, from the parent that it reads twice.
abbrev moved : RbTree → Ptr → Option Ptr → Option Ptr → Option Ptr → RbTree
moved t u v up up' = set_parent_of (replace_child left_side t u up v) v up'

Agree-moved :
    (t : RbTree) (u : Ptr) (v up up' : Option Ptr) (f : Ptr → ℕ)
    → ((p : Ptr) → up ≡ some p → f p ≡ 0)
    → ((p : Ptr) → v ≡ some p → f p ≡ 0)
    → Agree t.nodes (moved t u v up up').nodes f
Agree-moved t u v up up' f z z' =
    Agree-trans t.nodes (replace_child left_side t u up v).nodes (moved t u v up up').nodes f
      (Agree-replace_child left_side t u up v f z)
      (Agree-set_parent_of (replace_child left_side t u up v) v up' f z')

apart_top :
    (u p : Ptr) (ctx : List Step) → count_along u ctx ≡ 0 → 1 ≤ count_along p ctx → hit p u ≡ 0
apart_top u p ctx z n = ground arith

-- The parent is the same at the second read.
transplant-moved :
    (t : RbTree) (u : Ptr) (v : Option Ptr) (ctx : List Step)
    → (t.nodes u).parent ≡ top ctx
    → count_along u ctx ≡ 0
    → transplant t u v ≡ moved t u v (top ctx) (top ctx)
transplant-moved t u v ctx i z =
    let t1 = replace_child left_side t u (top ctx) v in
    let same : t1.nodes u ≡ t.nodes u =
      Agree-replace_child left_side t u (top ctx) v (λ p. hit p u)
        (λ p e. apart_top u p ctx z (count-top ctx p e)) u (omega (arith, hit_self u)) in
    ap (λ up. let t1 = replace_child left_side t u up v in set_parent_of t1 v (t1.nodes u).parent) i
    ∙ ap (set_parent_of t1 v) (ap (λ (m : RbNode). m.parent) same ∙ i)

pub Agree-transplant :
    (t : RbTree) (u : Ptr) (v : Shape) (ctx : List Step) (f : Ptr → ℕ)
    → (t.nodes u).parent ≡ top ctx
    → count_along u ctx ≡ 0
    → ((p : Ptr) → 1 ≤ count_along p ctx → f p ≡ 0)
    → ((p : Ptr) → 1 ≤ count p v → f p ≡ 0)
    → Agree t.nodes (transplant t u (root_of v)).nodes f
Agree-transplant t u v ctx f i z g g' =
    subst (λ (t2 : RbTree). Agree t.nodes t2.nodes f)
      (sym (transplant-moved t u (root_of v) ctx i z))
      (Agree-moved t u (root_of v) (top ctx) (top ctx) f (λ p e. g p (count-top ctx p e))
        (λ p e. g' p (count-root_of v p e)))

-- A subtree takes the place of the node `u`.
pub transplant_lem :
    (t : RbTree) (u : Ptr) (up : Option Ptr) (v : Shape) (ctx : List Step)
    → (t.nodes u).parent ≡ top ctx
    → ((p : Ptr) → count_along p ctx + hit p u + count p v ≤ 1)
    → Along t.nodes t.root ctx (some u)
    → Below t.nodes up v
    → At (transplant t u (root_of v)) ctx v
transplant_lem t u up v ctx i once along below =
    let z : count_along u ctx ≡ 0 = omega (arith, once u, hit_self u) in
    let t1 = replace_child left_side t u (top ctx) (root_of v) in
    let t2 = set_parent_of t1 (root_of v) (top ctx) in
    let a1 =
      Along-replace_child left_side t u ctx (root_of v) (λ p. omega (arith, once p)) z along in
    let b1 =
      Below-Agree t.nodes t1.nodes up v
        (Agree-replace_child left_side t u (top ctx) (root_of v) (λ p. count p v)
          (λ p e. omega (arith, once p, count-top ctx p e)))
        below in
    subst (λ t3. At t3 ctx v) (sym (transplant-moved t u (root_of v) ctx i z))
      (record {
        along =
            subst (λ r. Along t2.nodes r ctx (root_of v))
              (root-set_parent_of t1 (root_of v) (top ctx))
              (Along-Agree t1.nodes t2.nodes t1.root ctx (root_of v)
                (Agree-set_parent_of t1 (root_of v) (top ctx) (λ p. count_along p ctx)
                  (λ p e. omega (arith, once p, count-root_of v p e)))
                a1);
        below = Below-set_parent_of t1 up (top ctx) v (λ p. omega (arith, once p)) b1;
        once = λ p. omega (arith, once p);
      })

-- A node is given a subtree on side `d`.
abbrev pub filled : Side → RbTree → Ptr → Option Ptr → RbTree
filled d t y s = set_parent_of (set_child d t y s) s (some y)

pub Agree-filled :
    (d : Side) (t : RbTree) (y : Ptr) (s : Shape) (f : Ptr → ℕ)
    → f y ≡ 0
    → ((p : Ptr) → 1 ≤ count p s → f p ≡ 0)
    → Agree t.nodes (filled d t y (root_of s)).nodes f
Agree-filled d t y s f z g =
    Agree-trans t.nodes (set_child d t y (root_of s)).nodes (filled d t y (root_of s)).nodes f
      (Agree-update t.nodes y _ f z)
      (Agree-set_parent_of (set_child d t y (root_of s)) (root_of s) (some y) f
        (λ p e. g p (count-root_of s p e)))

pub filled-Below :
    (d : Side) (t : RbTree) (c : Color) (y : Ptr) (up z up' : Option Ptr) (s r : Shape)
    → ((p : Ptr) → hit p y + count p s + count p r ≤ 1)
    → t.nodes y ≡ cell d c up z (root_of r)
    → Below t.nodes up' s
    → Below t.nodes (some y) r
    → Below (filled d t y (root_of s)).nodes up (join d c s y r)
filled-Below d t c y up z up' s r once at bs br =
    let n = with_child d (root_of s) (t.nodes y) in
    let t1 = set_child d t y (root_of s) in
    let t2 = filled d t y (root_of s) in
    let at1 : t1.nodes y ≡ cell d c up (root_of s) (root_of r) =
      update_self t.nodes y n
      ∙ ap (with_child d (root_of s)) at
      ∙ with_child-cell d c up z (root_of r) (root_of s) in
    let bs1 =
      Below-Agree t.nodes t1.nodes up' s
        (Agree-update t.nodes y n (λ p. count p s) (omega (arith, once y, hit_self y))) bs in
    join-Below t2.nodes up d c s y r
      (Agree-set_parent_of t1 (root_of s) (some y) (λ p. hit p y)
          (λ p e. omega (arith, once p, count-root_of s p e)) y (omega (arith, hit_self y))
        ∙ at1)
      (Below-set_parent_of t1 up' (some y) s (λ p. omega (arith, once p)) bs1)
      (Below-Agree t.nodes t2.nodes (some y) r
        (Agree-filled d t y s (λ p. count p r) (omega (arith, once y, hit_self y))
          (λ p e. omega (arith, once p)))
        br)

-- A node in a tree is given a subtree where it has none.
pub filled_lem :
    (d : Side) (t : RbTree) (c : Color) (y : Ptr) (up' : Option Ptr) (s r : Shape) (ctx : List Step)
    → ((p : Ptr) → count_along p ctx + (hit p y + count p s + count p r) ≤ 1)
    → At t ctx (join d c leaf y r)
    → Below t.nodes up' s
    → At (filled d t y (root_of s)) ctx (join d c s y r)
filled_lem d t c y up' s r ctx once v bs =
    let w = Below-join t.nodes (top ctx) d c leaf y r v.below in
    let t1 = set_child d t y (root_of s) in
    let t2 = filled d t y (root_of s) in
    record {
      along =
          subst (Along t2.nodes t2.root ctx)
            (root_of-join d c leaf y r ∙ sym (root_of-join d c s y r))
            (subst (λ x. Along t2.nodes x ctx (root_of (join d c leaf y r)))
              (root-set_parent_of t1 (root_of s) (some y))
              (Along-Agree t.nodes t2.nodes t.root ctx (root_of (join d c leaf y r))
                (Agree-filled d t y s (λ p. count_along p ctx) (omega (arith, once y, hit_self y))
                  (λ p e. omega (arith, once p)))
                v.along));
      below = filled-Below d t c y (top ctx) none up' s r (λ p. omega (arith, once p)) w.0 bs w.2;
      once = λ p. omega (arith, once p, count-join p d c s y r);
    }
