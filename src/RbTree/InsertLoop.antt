-- ===== src/RbTree/InsertLoop.antt =====
-- The loop of `insert_fixup` of src/rbtree.rs: it ends, with a red-black tree in the same order.
use rtsched.Base.{
  ℕ, suc, zero, ◌<◌, Ptr, true, false, Option, none, some, List, [], ◌∷◌, ◌≡◌, ◌∙◌, ap, sym, refl,
  subst, arith, length,
}
use rtsched.Kernel.{Result, done, Returns, Returns->>=, Returns-imp, ◌>>=◌}
use rtsched.RbTree.{
  RbTree, Color, red, black, Side, left_side, right_side, flip, child, color_of, is_red, set_color,
  set_color_of, deref,
}
use rtsched.RbTree.Insert.{insert_round, insert_fixup, rotate_inner, side_of}
use rtsched.RbTree.Shape.{
  Shape, node, Step, step, root_of, top, cell, join, plug, in_order, Along, At, At-up, count,
  count-join, root_of-join, Below-join, hit_self,
}
use rtsched.RbTree.Frames.{child-cell}
use rtsched.RbTree.Balance.{
  shade, RedBlack, Fits, Fits-plug, red-join, join-red, black-join, shade-join, in_order-plug,
  color_of-root_of, Linked,
}
use rtsched.RbTree.Recolor.{At-set_color, At-set_color_near, At-set_color_far, Linked-settle}
use rtsched.RbTree.InsertFixup.{Pending, Outer, rotate_up, rotate_up_lem, parent-top}
use rtsched.RbTree.InsertRound.{red_shape, outer_lem, side_of_lem}

-- The round, from the uncle and its colour.
abbrev round_on : Side → RbTree → Ptr → Ptr → Ptr → Option Ptr → Color → Result (RbTree × Ptr)
round_on d t z p g uncle c = elim (is_red c) [
  | true ↦ done (set_color (set_color_of (set_color t p black) uncle black) g red, g)
  | false ↦ rotate_inner d t z p >>= λ (t1, z1). rotate_up d t1 z1
]

in_order-recolored :
    (d d' : Side) (s : Shape) (p : Ptr) (far : Shape) (g : Ptr) (b : Shape) (q : Ptr) (e : Shape)
    → in_order (join d red (join d' black s p far) g (node black b q e))
      ≡ in_order (join d black (join d' red s p far) g (node red b q e))
unfolding in_order
in_order-recolored left_side left_side s p far g b q e = refl
in_order-recolored left_side right_side s p far g b q e = refl
in_order-recolored right_side left_side s p far g b q e = refl
in_order-recolored right_side right_side s p far g b q e = refl

recolored_lem :
    (d d' : Side) (t : RbTree) (p g : Ptr) (s far b e : Shape) (q : Ptr) (ctx : List Step) (k : ℕ)
    (xs : List Ptr)
    → RedBlack k s
    → RedBlack k far
    → RedBlack k (node red b q e)
    → Fits (suc k) black ctx
    → in_order (plug ctx (join d black (join d' red s p far) g (node red b q e))) ≡ xs
    → At t ctx (join d black (join d' red s p far) g (node red b q e))
    → Pending
        (set_color (set_color (set_color t p black) q black) g red)
        g
        xs
        (suc (suc (length ctx)))
recolored_lem d d' t p g s far b e q ctx k xs bs bf bu fits o v =
    let (bb, be, sb, se) = join-red k left_side b q e bu in
    let u = node black b q e in
    let near = join d' black s p far in
    record {
      ctx = ctx;
      focus = join d red near g u;
      height = suc k;
      at_z = root_of-join d red near g u;
      focus_red = shade-join d red near g u;
      balanced =
          red-join (suc k) d near g u (black-join k d' s p far bs bf)
            (black-join k left_side b q e bb be) (shade-join d' black s p far) refl;
      fits = fits;
      at = At-set_color (set_color (set_color t p black) q black) d black red near g u ctx (
          At-set_color_far (set_color t p black) d left_side black red black b q e g near ctx
            (At-set_color_near t d d' black red black s p far g (node red b q e) ctx v));
      order =
          in_order-plug ctx (join d red near g u)
            (join d black (join d' red s p far) g (node red b q e))
            (in_order-recolored d d' s p far g b q e)
          ∙ o;
      short = omega arith;
    }

round_on_lem :
    (c : Color) (d d' : Side) (t : RbTree) (z p g : Ptr) (s far u : Shape) (ctx : List Step) (k : ℕ)
    (xs : List Ptr)
    → shade u ≡ c
    → root_of s ≡ some z
    → shade s ≡ red
    → RedBlack k s
    → RedBlack k far
    → shade far ≡ black
    → RedBlack k u
    → Fits (suc k) black ctx
    → in_order (plug ctx (join d black (join d' red s p far) g u)) ≡ xs
    → At t ctx (join d black (join d' red s p far) g u)
    → Returns
        (λ r. Pending r.0 r.1 xs (suc (suc (length ctx))) × (r.0.len ≡ t.len))
        (round_on d t z p g (root_of u) c)
round_on_lem red d d' t z p g s far u ctx k xs sc i c bs bf sf bu fits o v =
    let (b, q, e, j) = red_shape left_side u sc in
    let P : Option Ptr → Type 0 = λ x.
      Returns
        (λ (r : RbTree × Ptr). Pending r.0 r.1 xs (suc (suc (length ctx))) × (r.0.len ≡ t.len))
        (round_on d t z p g x red) in
    subst P (sym (ap root_of j)) (
      recolored_lem d d' t p g s far b e q ctx k xs bs bf (subst (RedBlack k) j bu) fits
          (subst (λ y. in_order (plug ctx (join d black (join d' red s p far) g y)) ≡ xs) j o)
          (subst (λ y. At t ctx (join d black (join d' red s p far) g y)) j v),
      refl,
    )
round_on_lem black d d' t z p g s far u ctx k xs sc i c bs bf sf bu fits o v =
    Returns->>= (λ r. Outer d r.0 r.1 g u ctx k xs × (r.0.len ≡ t.len))
      (λ r. Pending r.0 r.1 xs (suc (suc (length ctx))) × (r.0.len ≡ t.len)) (rotate_inner d t z p)
      (λ (t1, z1). rotate_up d t1 z1) (outer_lem d d' t z p g s far u ctx k xs i c bs bf sf o v)
      (λ (t1, z1) (w, len).
        Returns-imp (λ (t2, z2) (w2, len2). (w2, len2 ∙ len)) (rotate_up d t1 z1)
          (rotate_up_lem d t1 z1 g u ctx k xs bu sc fits w))

pub cell-color :
    (d : Side) (c : Color) (up near far : Option Ptr) → (cell d c up near far).color ≡ c
cell-color left_side c up near far = refl
cell-color right_side c up near far = refl

-- One turn of the loop, from the parent and its colour.
abbrev loop_on : ℕ → RbTree → Ptr → Option Ptr → Color → Result RbTree
loop_on n t z parent c = elim (is_red c) [
  | false ↦ done (set_color_of t t.root black)
  | true ↦ deref parent >>= λ p. deref (t.nodes p).parent >>= λ g.
      insert_round (side_of t g p) t z p g >>= λ (t1, z1). insert_fixup n t1 z1
]

insert_fixup-loop_on :
    (n : ℕ) (t : RbTree) (z : Ptr) (parent : Option Ptr) (c : Color)
    → (t.nodes z).parent ≡ parent
    → color_of t parent ≡ c
    → insert_fixup (suc n) t z ≡ loop_on n t z parent c
unfolding insert_fixup
insert_fixup-loop_on n t z parent c e e' =
    ap (λ o. loop_on n t z o (color_of t o)) e ∙ ap (loop_on n t z parent) e'

-- The round that the source picks, below a red parent.
round_lem :
    (d d' : Side) (t : RbTree) (z p g : Ptr) (s far u : Shape) (ctx : List Step) (k : ℕ)
    (xs : List Ptr)
    → root_of s ≡ some z
    → shade s ≡ red
    → RedBlack k s
    → Fits k black (step d' red p far ∷ step d black g u ∷ ctx)
    → in_order (plug ctx (join d black (join d' red s p far) g u)) ≡ xs
    → At t (step d' red p far ∷ step d black g u ∷ ctx) s
    → Returns
        (λ r. Pending r.0 r.1 xs (suc (suc (length ctx))) × (r.0.len ≡ t.len))
        (insert_round (side_of t g p) t z p g)
unfolding Fits Along
round_lem d d' t z p g s far u ctx k xs i c bs fits o v =
    let v1 = At-up t d' red p far (step d black g u ∷ ctx) s v in
    let v2 = At-up t d black g u ctx (join d' red s p far) v1 in
    let w = Below-join t.nodes (top ctx) d black (join d' red s p far) g u v2.below in
    let at_g : t.nodes g ≡ cell d black (top ctx) (some p) (root_of u) =
      w.0 ∙ ap (λ x. cell d black (top ctx) x (root_of u)) (root_of-join d' red s p far) in
    let apart : count p u ≡ 0 = omega (
      arith,
      v2.once p,
      count-join p d black (join d' red s p far) g u,
      count-join p d' red s p far,
      hit_self p,
    ) in
    let uncle : child (flip d) (t.nodes g) ≡ root_of u =
      ap (child (flip d)) at_g ∙ (child-cell d black (top ctx) (some p) (root_of u)).1 in
    let P : Result (RbTree × Ptr) → Type 0 =
      Returns (λ r. Pending r.0 r.1 xs (suc (suc (length ctx))) × (r.0.len ≡ t.len)) in
    subst P
      (sym (
        ap (λ x. insert_round x t z p g) (side_of_lem t d black g p (top ctx) u at_g apart)
        ∙ ap (λ x. round_on d t z p g x (color_of t x)) uncle
        ∙ ap (round_on d t z p g (root_of u)) (color_of-root_of t (some g) u w.2)))
      (round_on_lem (shade u) d d' t z p g s far u ctx k xs refl i c bs fits.1 fits.2 fits.3.0
        fits.3.1 o v2)

pub len-set_color_of : (t : RbTree) (x : Option Ptr) (c : Color) → (set_color_of t x c).len ≡ t.len
len-set_color_of t none c = refl
len-set_color_of t (some p) c = refl

-- The end of the loop, under a black parent or at the root.
exit_lem :
    (n : ℕ) (t : RbTree) (z : Ptr) (xs : List Ptr) (ctx : List Step) (s : Shape)
    → (m : ℕ) × RedBlack m (plug ctx s)
    → (t.nodes z).parent ≡ top ctx
    → color_of t (top ctx) ≡ black
    → At t ctx s
    → in_order (plug ctx s) ≡ xs
    → Returns (λ t'. Linked t' xs × (t'.len ≡ t.len)) (insert_fixup (suc n) t z)
exit_lem n t z xs ctx s (m, b) up c v o =
    subst (Returns (λ t'. Linked t' xs × (t'.len ≡ t.len)))
      (sym (insert_fixup-loop_on n t z (top ctx) black up c))
      (
        subst (Linked (set_color_of t t.root black)) o (Linked-settle t m ctx s v b),
        len-set_color_of t t.root black,
      )

pub fixup_from :
    (n : ℕ) (t : RbTree) (z : Ptr) (xs : List Ptr) (ctx : List Step) (s : Shape) (k : ℕ)
    → root_of s ≡ some z
    → shade s ≡ red
    → RedBlack k s
    → Fits k black ctx
    → At t ctx s
    → in_order (plug ctx s) ≡ xs
    → length ctx < n
    → Returns (λ t'. Linked t' xs × (t'.len ≡ t.len)) (insert_fixup n t z)
unfolding Fits plug Along
fixup_from zero t z xs ctx s k i c bs fits v o short = let no : ⊥ = omega arith in elim no [ ]
fixup_from (suc n) t z xs [] s k i c bs fits v o short =
    exit_lem n t z xs [] s (k, bs) (parent-top t [] s z i v) refl v o
fixup_from (suc n) t z xs (step d black p far ∷ ctx) s k i c bs fits v o short =
    let ctx1 = step d black p far ∷ ctx in
    exit_lem n t z xs ctx1 s (Fits-plug k ctx1 s bs fits) (parent-top t ctx1 s z i v)
      (ap (λ m. m.color) v.along.0 ∙ cell-color d black (top ctx) (root_of s) (root_of far)) v o
fixup_from (suc n) t z xs (step d red p far ∷ []) s k i c bs fits v o short = elim fits.3 [ ]
fixup_from (suc n) t z xs (step d red p far ∷ step d' red g u ∷ ctx) s k i c bs fits v o short =
    ground arith
fixup_from (suc n) t z xs (step d red p far ∷ step d' black g u ∷ ctx) s k i c bs fits v o short =
    let ctx1 = step d' black g u ∷ ctx in
    let v1 = At-up t d red p far ctx1 s v in
    let P : Result RbTree → Type 0 = Returns (λ t'. Linked t' xs × (t'.len ≡ t.len)) in
    let next : (r : RbTree × Ptr)
        → Pending r.0 r.1 xs (suc (suc (length ctx))) × (r.0.len ≡ t.len)
        → P (insert_fixup n r.0 r.1) =
      λ (t1, z1) (w, len).
        Returns-imp (λ t2 (w2, len2). (w2, len2 ∙ len)) (insert_fixup n t1 z1)
          (fixup_from n t1 z1 xs w.ctx w.focus w.height w.at_z w.focus_red w.balanced w.fits w.at
            w.order (omega (arith, w.short))) in
    subst P
      (sym (
        insert_fixup-loop_on n t z (some p) red (parent-top t (step d red p far ∷ ctx1) s z i v)
          (ap (λ m. m.color) v.along.0 ∙ cell-color d red (top ctx1) (root_of s) (root_of far))
        ∙ ap
            (λ o. deref o >>= λ g.
              insert_round (side_of t g p) t z p g >>= λ (t1, z1). insert_fixup n t1 z1)
            (parent-top t ctx1 (join d red s p far) p (root_of-join d red s p far) v1)))
      (Returns->>= (λ r. Pending r.0 r.1 xs (suc (suc (length ctx))) × (r.0.len ≡ t.len))
        (λ t'. Linked t' xs × (t'.len ≡ t.len)) (insert_round (side_of t g p) t z p g)
        (λ (t1, z1). insert_fixup n t1 z1) (round_lem d' d t z p g s far u ctx k xs i c bs fits o v)
        next)
