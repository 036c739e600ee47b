-- ===== src/RbTree/InsertFixup.antt =====
-- `insert_fixup` of src/rbtree.rs: what one round makes of the tree around the new red node.
use rtsched.Base.{ℕ, suc, ◌<◌, Ptr, none, some, List, ◌∷◌, ◌≡◌, ◌∙◌, ap, sym, subst, arith, length}
use rtsched.Kernel.{Result, done, Returns, Returns->>=, ◌>>=◌}
use rtsched.RbTree.{RbTree, red, black, Side, flip, set_color, rotate, deref}
use rtsched.RbTree.Shape.{
  Shape, leaf, node, Step, step, root_of, top, join, plug, in_order, Below, At, At-down,
  root_of-join,
}
use rtsched.RbTree.Rotate.{flip-rotate_lem}
use rtsched.RbTree.Balance.{shade, RedBlack, Fits, red-join, in_order-plug, in_order-rotate}
use rtsched.RbTree.Recolor.{At-set_color, At-set_color_near}

-- The loop's invariant: the tree below `z` is red-black with a red root, and what is around it
-- completes a black one. The way to it is below the bound.
pub record Pending (t : RbTree) (z : Ptr) (xs : List Ptr) (bound : ℕ) : Type 0 where
  pub ctx : List Step
  pub focus : Shape
  pub height : ℕ
  pub at_z : root_of focus ≡ some z
  pub focus_red : shade focus ≡ red
  pub balanced : RedBlack height focus
  pub fits : Fits height black ctx
  pub at : At t ctx focus
  pub order : in_order (plug ctx focus) ≡ xs
  pub short : length ctx < bound

-- Once `z` is an outer child: its parent is red, on side `d` of the grandparent.
pub record Outer (d : Side) (t : RbTree) (z g : Ptr) (u : Shape) (ctx : List Step) (height : ℕ)
    (xs : List Ptr) : Type 0 where
  pub focus : Shape
  pub p : Ptr
  pub far : Shape
  pub at_z : root_of focus ≡ some z
  pub focus_red : shade focus ≡ red
  pub balanced : RedBlack height focus
  pub far_balanced : RedBlack height far
  pub far_black : shade far ≡ black
  pub at : At t ctx (join d black (join d red focus p far) g u)
  pub order : in_order (plug ctx (join d black (join d red focus p far) g u)) ≡ xs

-- What the source reads of a parent.
pub parent-top :
    (t : RbTree) (ctx : List Step) (s : Shape) (z : Ptr)
    → root_of s ≡ some z
    → At t ctx s
    → (t.nodes z).parent ≡ top ctx
unfolding Below
parent-top t ctx leaf z e v = ground arith
parent-top t ctx (node c' l q r) z e v =
    subst (λ o. elim o [ none ↦ Unit | some w ↦ (t.nodes w).parent ≡ top ctx ]) e
      (ap (λ n. n.parent) v.below.0)

-- The tail of a round, after the inner child is rotated out.
abbrev pub rotate_up : Side → RbTree → Ptr → Result (RbTree × Ptr)
rotate_up d t z = deref (t.nodes z).parent >>= λ p. deref (t.nodes p).parent >>= λ g.
    rotate (flip d) (set_color (set_color t p black) g red) g >>= λ t2. done (t2, z)

abbrev turn : Side → RbTree → Ptr → Ptr → Ptr → Result (RbTree × Ptr)
turn d t z p g = rotate (flip d) (set_color (set_color t p black) g red) g >>= λ t2. done (t2, z)

rotate_up-turn :
    (d : Side) (t : RbTree) (z p g : Ptr)
    → (t.nodes z).parent ≡ some p
    → (t.nodes p).parent ≡ some g
    → rotate_up d t z ≡ turn d t z p g
rotate_up-turn d t z p g e e' =
    ap (λ o. deref o >>= λ p. deref (t.nodes p).parent >>= λ g. turn d t z p g) e
    ∙ ap (λ o. deref o >>= λ g. turn d t z p g) e'

pub rotate_up_lem :
    (d : Side) (t : RbTree) (z g : Ptr) (u : Shape) (ctx : List Step) (k : ℕ) (xs : List Ptr)
    → RedBlack k u
    → shade u ≡ black
    → Fits (suc k) black ctx
    → Outer d t z g u ctx k xs
    → Returns
        (λ r. Pending r.0 r.1 xs (suc (suc (length ctx))) × (r.0.len ≡ t.len))
        (rotate_up d t z)
unfolding Fits plug
rotate_up_lem d t z g u ctx k xs ub us fits v =
    let v1 = At-down t d black g u ctx (join d red v.focus v.p v.far) v.at in
    let v2 = At-down t d red v.p v.far (step d black g u ∷ ctx) v.focus v1 in
    let e1 = parent-top t (step d red v.p v.far ∷ step d black g u ∷ ctx) v.focus z v.at_z v2 in
    let e2 =
      parent-top t (step d black g u ∷ ctx) (join d red v.focus v.p v.far) v.p
        (root_of-join d red v.focus v.p v.far) v1 in
    let t1 = set_color (set_color t v.p black) g red in
    let w =
      At-set_color (set_color t v.p black) d black red (join d black v.focus v.p v.far) g u ctx
        (At-set_color_near t d d black red black v.focus v.p v.far g u ctx v.at) in
    let s1 = join d red v.far g u in
    subst
      (Returns
        (λ (r : RbTree × Ptr). Pending r.0 r.1 xs (suc (suc (length ctx))) × (r.0.len ≡ t.len)))
      (sym (rotate_up-turn d t z v.p g e1 e2))
      (Returns->>= (λ t2. At t2 ctx (join d black v.focus v.p s1) × (t2.len ≡ t.len))
        (λ r. Pending r.0 r.1 xs (suc (suc (length ctx))) × (r.0.len ≡ t.len))
        (rotate (flip d) t1 g) (λ t2. done (t2, z))
        (flip-rotate_lem d red black g v.p u v.far v.focus ctx t1 w)
        (λ t2 (w2, len). (
          record {
            ctx = step d black v.p s1 ∷ ctx;
            focus = v.focus;
            height = k;
            at_z = v.at_z;
            focus_red = v.focus_red;
            balanced = v.balanced;
            fits = (red-join k d v.far g u v.far_balanced ub v.far_black us, fits);
            at = At-down t2 d black v.p s1 ctx v.focus w2;
            order =
                in_order-plug ctx (join d black v.focus v.p s1)
                  (join d black (join d red v.focus v.p v.far) g u)
                  (in_order-rotate d black red black red v.focus v.p v.far g u)
                ∙ v.order;
            short = omega arith;
          },
          len,
        )))
