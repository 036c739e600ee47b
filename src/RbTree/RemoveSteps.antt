-- ===== src/RbTree/RemoveSteps.antt =====
-- The steps of a round of `remove_fixup` in src/rbtree.rs, at a parent whose subtree on one side has lost a
-- black node.
use rtsched.Base.{
  ℕ, suc, ◌≤◌, Ptr, Bool, true, false, not, ◌&&◌, Option, some, List, ◌∷◌, ◌≡◌, ◌∙◌, ap, ap₂, sym,
  refl, subst, arith, length,
}
use rtsched.Kernel.{Result, done, Returns, Returns->>=, ◌>>=◌}
use rtsched.RbTree.{
  RbNode, RbTree, Color, red, black, Side, left_side, right_side, flip, child, child_of, color_of,
  is_red, set_color, set_color_of, rotate,
}
use rtsched.RbTree.Remove.{lower_red_sibling, sibling_has_black_children}
use rtsched.RbTree.Shape.{
  Shape, leaf, node, Step, step, root_of, top, cell, join, plug, in_order, Below, At, At-up,
  At-down, root_of-join, Below-join,
}
use rtsched.RbTree.Frames.{child-cell}
use rtsched.RbTree.Rotate.{rotate_lem}
use rtsched.RbTree.Balance.{
  shade, RedBlack, Fits, join-red, in_order-plug, in_order-rotate, color_of-root_of,
}
use rtsched.RbTree.Recolor.{At-set_color, At-set_color_far}
use rtsched.RbTree.InsertRound.{red_shape}

-- What the source reads through the parent's link to the sibling.
pub sibling-At :
    (t : RbTree) (d : Side) (c : Color) (p : Ptr) (w : Shape) (ctx : List Step) (s : Shape)
    → At t (step d c p w ∷ ctx) s
    → child (flip d) (t.nodes p) ≡ root_of w
unfolding rtsched.RbTree.Shape.Along
sibling-At t d c p w ctx s v =
    ap (child (flip d)) v.along.0 ∙ (child-cell d c (top ctx) (root_of s) (root_of w)).1

pub far-Below :
    (t : RbTree) (d : Side) (c : Color) (p : Ptr) (w : Shape) (ctx : List Step) (s : Shape)
    → At t (step d c p w ∷ ctx) s
    → Below t.nodes (some p) w
unfolding rtsched.RbTree.Shape.Along
far-Below t d c p w ctx s v = v.along.1

-- A black node that is not a leaf, from the height.
pub black_shape :
    (d : Side) (k : ℕ) (w : Shape)
    → RedBlack (suc k) w
    → shade w ≡ black
    → (a : Shape) × (q : Ptr) × (b : Shape) × (w ≡ join d black a q b) × RedBlack k a × RedBlack k b
unfolding RedBlack
black_shape d k leaf b i = ground arith
black_shape d k (node red l p r) b i = ground arith
black_shape left_side k (node black l p r) b i = (l, p, r, refl, b.0, b.1)
black_shape right_side k (node black l p r) b i = (r, p, l, refl, b.1, b.0)

-- The parent with a black sibling, in a tree whose hole has lost a black node.
pub record Sibling (d : Side) (t : RbTree) (p : Ptr) (s : Shape) (k : ℕ) (xs : List Ptr) (bound : ℕ)
    : Type 0 where
  pub color : Color
  pub w : Shape
  pub ctx : List Step
  pub at : At t (step d color p w ∷ ctx) s
  pub fits : Fits (suc k) black (step d color p w ∷ ctx)
  pub w_black : shade w ≡ black
  pub order : in_order (plug ctx (join d color s p w)) ≡ xs
  pub short : color ≡ black → length ctx ≤ bound

-- The step, from the sibling and its colour.
abbrev lower_on : Side → RbTree → Ptr → Option Ptr → Color → Result (RbTree × Option Ptr)
lower_on d t p w c = elim (is_red c) [
  | true ↦ rotate d (set_color (set_color_of t w black) p red) p >>= λ t1.
      done (t1, child (flip d) (t1.nodes p))
  | false ↦ done (t, w)
]

-- A red sibling: its parent is black, and the sibling comes up.
lower_red_lem :
    (d : Side) (t : RbTree) (p : Ptr) (s : Shape) (k : ℕ) (xs : List Ptr) (a : Shape) (q : Ptr)
    (b : Shape) (ctx : List Step)
    → RedBlack (suc k) (join d red a q b)
    → Fits (suc (suc k)) black ctx
    → in_order (plug ctx (join d black s p (join d red a q b))) ≡ xs
    → At t (step d black p (join d red a q b) ∷ ctx) s
    → Returns
        (λ r. (v : Sibling d r.0 p s k xs (length ctx)) × (r.1 ≡ root_of v.w) × (r.0.len ≡ t.len))
        (lower_on d t p (some q) red)
unfolding Fits plug
lower_red_lem d t p s k xs a q b ctx bw fits o v =
    let (ba, bb, sa, sb) = join-red (suc k) d a q b bw in
    let t1 = set_color (set_color t q black) p red in
    let v1 = At-set_color (set_color t q black) d black red s p (join d black a q b) ctx (
      At-set_color_far t d d black red black a q b p s ctx
        (At-up t d black p (join d red a q b) ctx s v)) in
    Returns->>= (λ t2. At t2 ctx (join d black (join d red s p a) q b) × (t2.len ≡ t.len))
      (λ r. (v : Sibling d r.0 p s k xs (length ctx)) × (r.1 ≡ root_of v.w) × (r.0.len ≡ t.len))
      (rotate d t1 p) (λ t2. done (t2, child (flip d) (t2.nodes p)))
      (rotate_lem d red black p q s a b ctx t1 v1)
      (λ t2 (v2, len).
        let v3 =
          At-down t2 d red p a (step d black q b ∷ ctx) s
            (At-down t2 d black q b ctx (join d red s p a) v2) in
        (
          record {
            color = red;
            w = a;
            ctx = step d black q b ∷ ctx;
            at = v3;
            fits = (refl, ba, sa, (bb, fits));
            w_black = sa;
            order =
                in_order-plug ctx (join d black (join d red s p a) q b)
                  (join d black s p (join d red a q b))
                  (sym (in_order-rotate d black red black red s p a q b))
                ∙ o;
            short = λ i. ground arith;
          },
          sibling-At t2 d red p a (step d black q b ∷ ctx) s v3,
          len,
        ))

-- Both colours of the sibling.
lower_on_lem :
    (e : Color) (d : Side) (t : RbTree) (c : Color) (p : Ptr) (w s : Shape) (k : ℕ) (xs : List Ptr)
    (ctx : List Step)
    → shade w ≡ e
    → Fits (suc k) black (step d c p w ∷ ctx)
    → in_order (plug ctx (join d c s p w)) ≡ xs
    → At t (step d c p w ∷ ctx) s
    → Returns
        (λ r. (v : Sibling d r.0 p s k xs (length ctx)) × (r.1 ≡ root_of v.w) × (r.0.len ≡ t.len))
        (lower_on d t p (root_of w) e)
unfolding Fits
lower_on_lem black d t c p w s k xs ctx i fits o v = (
  record {
    color = c;
    w = w;
    ctx = ctx;
    at = v;
    fits = fits;
    w_black = i;
    order = o;
    short = λ _. omega arith;
  },
  refl,
  refl,
)
lower_on_lem red d t red p w s k xs ctx i fits o v = ground arith
lower_on_lem red d t black p w s k xs ctx i fits o v =
    let (a, q, b, j) = red_shape d w i in
    let P : Option Ptr → Type 0 = λ x.
      Returns
        (λ (r : RbTree × Option Ptr).
          (u : Sibling d r.0 p s k xs (length ctx)) × (r.1 ≡ root_of u.w) × (r.0.len ≡ t.len))
        (lower_on d t p x red) in
    subst P (sym (ap root_of j ∙ root_of-join d red a q b)) (
      lower_red_lem d t p s k xs a q b ctx (subst (RedBlack (suc k)) j fits.0) fits.1
        (subst (λ y. in_order (plug ctx (join d black s p y)) ≡ xs) j o)
        (subst (λ y. At t (step d black p y ∷ ctx) s) j v))

pub lower_red_sibling_lem :
    (d : Side) (t : RbTree) (c : Color) (p : Ptr) (w s : Shape) (k : ℕ) (xs : List Ptr)
    (ctx : List Step)
    → Fits (suc k) black (step d c p w ∷ ctx)
    → in_order (plug ctx (join d c s p w)) ≡ xs
    → At t (step d c p w ∷ ctx) s
    → Returns
        (λ r. (v : Sibling d r.0 p s k xs (length ctx)) × (r.1 ≡ root_of v.w) × (r.0.len ≡ t.len))
        (lower_red_sibling d t p)
lower_red_sibling_lem d t c p w s k xs ctx fits o v =
    subst
      (Returns
        (λ r. (u : Sibling d r.0 p s k xs (length ctx)) × (r.1 ≡ root_of u.w) × (r.0.len ≡ t.len)))
      (sym (
        ap (λ x. lower_on d t p x (color_of t x)) (sibling-At t d c p w ctx s v)
        ∙ ap (lower_on d t p (root_of w))
            (color_of-root_of t (some p) w (far-Below t d c p w ctx s v))))
      (lower_on_lem (shade w) d t c p w s k xs ctx refl fits o v)

-- The children of a black sibling, by side.
pub children-Below :
    (t : RbTree) (up : Option Ptr) (d : Side) (c : Color) (a : Shape) (q : Ptr) (b : Shape)
    → Below t.nodes up (join d c a q b)
    → (child_of d t (some q) ≡ root_of a)
      × (child_of (flip d) t (some q) ≡ root_of b)
      × (color_of t (root_of a) ≡ shade a)
      × (color_of t (root_of b) ≡ shade b)
children-Below t up d c a q b w =
    let v = Below-join t.nodes up d c a q b w in
    let cs = child-cell d c up (root_of a) (root_of b) in
    (
      ap (child d) v.0 ∙ cs.0,
      ap (child (flip d)) v.0 ∙ cs.1,
      color_of-root_of t (some q) a v.1,
      color_of-root_of t (some q) b v.2,
    )

abbrev pub both_black : Color → Color → Bool
both_black c e = not (is_red c) && not (is_red e)

pub both_black_comm : (c e : Color) → both_black c e ≡ both_black e c
both_black_comm red red = refl
both_black_comm red black = refl
both_black_comm black red = refl
both_black_comm black black = refl

pub sibling_has_black_children_lem :
    (t : RbTree) (up : Option Ptr) (d : Side) (c : Color) (a : Shape) (q : Ptr) (b : Shape)
    → Below t.nodes up (join d c a q b)
    → sibling_has_black_children t (some q) ≡ both_black (shade a) (shade b)
sibling_has_black_children_lem t up left_side c a q b w =
    let (ca, cb, sa, sb) = children-Below t up left_side c a q b w in
    ap₂ both_black (ap (color_of t) ca ∙ sa) (ap (color_of t) cb ∙ sb)
sibling_has_black_children_lem t up right_side c a q b w =
    let (ca, cb, sa, sb) = children-Below t up right_side c a q b w in
    ap₂ both_black (ap (color_of t) cb ∙ sb) (ap (color_of t) ca ∙ sa)
    ∙ both_black_comm (shade b) (shade a)
