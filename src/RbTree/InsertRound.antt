-- ===== src/RbTree/InsertRound.antt =====
-- One whole round of `insert_fixup` of src/rbtree.rs, for a red uncle and for a black one.
use rtsched.Base.{ℕ, Ptr, Option, some, List, ◌∷◌, ◌≡◌, ◌∙◌, ap, sym, refl, subst, arith, ==_refl}
use rtsched.Kernel.{done, Returns, Returns->>=, ◌>>=◌}
use rtsched.RbTree.{RbTree, Color, red, black, Side, left_side, right_side, flip, child, rotate}
use rtsched.RbTree.Insert.{rotate_inner, side_of}
use rtsched.RbTree.Shape.{
  Shape, leaf, node, Step, step, root_of, top, cell, join, plug, in_order, At, At-up, At-down,
  count, count-join, count-root_of, root_of-join, Below-join,
}
use rtsched.RbTree.Frames.{child-cell, same_ptr-root_of}
use rtsched.RbTree.Rotate.{rotate_lem}
use rtsched.RbTree.Balance.{
  shade, RedBlack, red-join, join-red, shade-join, in_order-plug, in_order-near, in_order-rotate,
}
use rtsched.RbTree.InsertFixup.{Outer}

pub red_shape :
    (d : Side) (s : Shape)
    → shade s ≡ red
    → (b : Shape) × (q : Ptr) × (e : Shape) × (s ≡ join d red b q e)
red_shape d leaf i = ground arith
red_shape left_side (node red l q r) i = (l, q, r, refl)
red_shape right_side (node red l q r) i = (r, q, l, refl)
red_shape d (node black l q r) i = ground arith

red_at :
    (d : Side) (s : Shape) (z : Ptr)
    → shade s ≡ red
    → root_of s ≡ some z
    → (b : Shape) × (e : Shape) × (s ≡ join d red b z e)
red_at d s z i j =
    let (b, q, e, k) = red_shape d s i in
    let same : some q ≡ some z = sym (root_of-join d red b q e) ∙ sym (ap root_of k) ∙ j in
    (b, e, k ∙ ap (λ x. join d red b x e) (ground arith))

-- The source's tests of a side.
pub side_of_lem :
    (t : RbTree) (d : Side) (c : Color) (g p : Ptr) (up : Option Ptr) (u : Shape)
    → t.nodes g ≡ cell d c up (some p) (root_of u)
    → count p u ≡ 0
    → side_of t g p ≡ d
side_of_lem t left_side c g p up u e z = rw (ap (child left_side) e, ==_refl p) refl
side_of_lem t right_side c g p up u e z = rw (ap (child left_side) e, same_ptr-root_of p u z) refl

rotate_inner-outer :
    (t : RbTree) (d : Side) (c : Color) (p z : Ptr) (up : Option Ptr) (far : Shape)
    → t.nodes p ≡ cell d c up (some z) (root_of far)
    → count z far ≡ 0
    → rotate_inner d t z p ≡ done (t, z)
rotate_inner-outer t left_side c p z up far e k =
    rw (ap (child right_side) e, same_ptr-root_of z far k) refl
rotate_inner-outer t right_side c p z up far e k =
    rw (ap (child left_side) e, same_ptr-root_of z far k) refl

rotate_inner-inner :
    (t : RbTree) (d : Side) (p z : Ptr)
    → child (flip d) (t.nodes p) ≡ some z
    → rotate_inner d t z p ≡ (rotate d t p >>= λ t1. done (t1, p))
rotate_inner-inner t left_side p z e = rw (e, ==_refl z) refl
rotate_inner-inner t right_side p z e = rw (e, ==_refl z) refl

-- An inner child: the rotation brings it up, and its parent is the outer child then.
inner_lem :
    (d : Side) (t : RbTree) (z p g : Ptr) (b e far u : Shape) (ctx : List Step) (k : ℕ)
    (xs : List Ptr)
    → RedBlack k (join d red b z e)
    → RedBlack k far
    → shade far ≡ black
    → in_order (plug ctx (join d black (join d red far p (join d red b z e)) g u)) ≡ xs
    → At t ctx (join d black (join d red far p (join d red b z e)) g u)
    → Returns (λ r. Outer d r.0 r.1 g u ctx k xs × (r.0.len ≡ t.len)) (rotate_inner d t z p)
inner_lem d t z p g b e far u ctx k xs bz bf sf o v =
    let P : RbTree × Ptr → Type 0 = λ r. Outer d r.0 r.1 g u ctx k xs × (r.0.len ≡ t.len) in
    let s = join d red b z e in
    let ctx1 = step d black g u ∷ ctx in
    let v1 = At-down t d black g u ctx (join d red far p s) v in
    let w = Below-join t.nodes (top ctx1) d red far p s v1.below in
    let link : child (flip d) (t.nodes p) ≡ some z =
      ap (child (flip d)) w.0
      ∙ (child-cell d red (top ctx1) (root_of far) (root_of s)).1
      ∙ root_of-join d red b z e in
    let (bb, be, sb, se) = join-red k d b z e bz in
    subst (Returns P) (sym (rotate_inner-inner t d p z link)) (
      Returns->>= (λ t1. At t1 ctx1 (join d red (join d red far p b) z e) × (t1.len ≡ t.len)) P
        (rotate d t p) (λ t1. done (t1, p)) (rotate_lem d red red p z far b e ctx1 t v1)
        (λ t1 (v2, len). (
          record {
            focus = join d red far p b;
            p = z;
            far = e;
            at_z = root_of-join d red far p b;
            focus_red = shade-join d red far p b;
            balanced = red-join k d far p b bf bb sf sb;
            far_balanced = be;
            far_black = se;
            at = At-up t1 d black g u ctx (join d red (join d red far p b) z e) v2;
            order =
                in_order-plug ctx (join d black (join d red (join d red far p b) z e) g u)
                  (join d black (join d red far p s) g u)
                  (in_order-near d black g u (join d red (join d red far p b) z e)
                    (join d red far p s) (sym (in_order-rotate d red red red red far p b z e)))
                ∙ o;
          },
          len,
        )))

other_lem :
    (d : Side) (t : RbTree) (z p g : Ptr) (s far u : Shape) (ctx : List Step) (k : ℕ)
    (xs : List Ptr)
    → root_of s ≡ some z
    → shade s ≡ red
    → RedBlack k s
    → RedBlack k far
    → shade far ≡ black
    → in_order (plug ctx (join d black (join d red far p s) g u)) ≡ xs
    → At t ctx (join d black (join d red far p s) g u)
    → Returns (λ r. Outer d r.0 r.1 g u ctx k xs × (r.0.len ≡ t.len)) (rotate_inner d t z p)
other_lem d t z p g s far u ctx k xs i c bs bf sf o v =
    let (b, e, j) = red_at d s z c i in
    inner_lem d t z p g b e far u ctx k xs (subst (RedBlack k) j bs) bf sf
      (subst (λ y. in_order (plug ctx (join d black (join d red far p y) g u)) ≡ xs) j o)
      (subst (λ y. At t ctx (join d black (join d red far p y) g u)) j v)

same_lem :
    (d : Side) (t : RbTree) (z p g : Ptr) (s far u : Shape) (ctx : List Step) (k : ℕ)
    (xs : List Ptr)
    → root_of s ≡ some z
    → shade s ≡ red
    → RedBlack k s
    → RedBlack k far
    → shade far ≡ black
    → in_order (plug ctx (join d black (join d red s p far) g u)) ≡ xs
    → At t ctx (join d black (join d red s p far) g u)
    → Returns (λ r. Outer d r.0 r.1 g u ctx k xs × (r.0.len ≡ t.len)) (rotate_inner d t z p)
same_lem d t z p g s far u ctx k xs i c bs bf sf o v =
    let v1 = At-down t d black g u ctx (join d red s p far) v in
    let w = Below-join t.nodes (some g) d red s p far v1.below in
    let here : t.nodes p ≡ cell d red (some g) (some z) (root_of far) =
      w.0 ∙ ap (λ q. cell d red (some g) q (root_of far)) i in
    let apart : count z far ≡ 0 =
      omega (arith, v1.once z, count-join z d red s p far, count-root_of s z i) in
    subst (Returns (λ r. Outer d r.0 r.1 g u ctx k xs × (r.0.len ≡ t.len)))
      (sym (rotate_inner-outer t d red p z (some g) far here apart))
      (
        record {
          focus = s;
          p = p;
          far = far;
          at_z = i;
          focus_red = c;
          balanced = bs;
          far_balanced = bf;
          far_black = sf;
          at = v;
          order = o;
        },
        refl,
      )

-- The child on either side.
pub outer_lem :
    (d d' : Side) (t : RbTree) (z p g : Ptr) (s far u : Shape) (ctx : List Step) (k : ℕ)
    (xs : List Ptr)
    → root_of s ≡ some z
    → shade s ≡ red
    → RedBlack k s
    → RedBlack k far
    → shade far ≡ black
    → in_order (plug ctx (join d black (join d' red s p far) g u)) ≡ xs
    → At t ctx (join d black (join d' red s p far) g u)
    → Returns (λ r. Outer d r.0 r.1 g u ctx k xs × (r.0.len ≡ t.len)) (rotate_inner d t z p)
outer_lem left_side left_side t z p g s far u ctx k xs = same_lem left_side t z p g s far u ctx k xs
outer_lem left_side right_side t z p g s far u ctx k xs =
    other_lem left_side t z p g s far u ctx k xs
outer_lem right_side left_side t z p g s far u ctx k xs =
    other_lem right_side t z p g s far u ctx k xs
outer_lem right_side right_side t z p g s far u ctx k xs =
    same_lem right_side t z p g s far u ctx k xs
