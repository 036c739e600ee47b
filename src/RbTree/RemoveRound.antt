-- ===== src/RbTree/RemoveRound.antt =====
-- One whole round of `remove_fixup` in src/rbtree.rs: the loop ends after it, or the black node is missing
-- one level higher.
use rtsched.Base.{
  ℕ, suc, ◌<◌, Ptr, Bool, true, false, not, ◌&&◌, Option, none, some, List, [], ◌∷◌, ◌≡◌, ◌⊎◌, inl,
  inr, ◌∙◌, ap, sym, refl, subst, arith, length, same_ptr, ==_refl,
}
use rtsched.RbTree.{
  RbTree, Color, red, black, Side, left_side, right_side, color_of, is_red, set_color, set_color_of,
}
use rtsched.RbTree.Shape.{
  Shape, node, Step, step, root_of, top, join, plug, in_order, At, At-up, At-plug, root_of-join,
}
use rtsched.RbTree.Balance.{
  shade, RedBlack, Fits, Fits-plug, red-join, black-join, shade-join, blacken, in_order-plug,
  in_order-far, in_order-blacken, in_order-recolor, color_of-root_of, Linked,
}
use rtsched.RbTree.Recolor.{At-set_color, At-set_color_far, Linked-settle}
use rtsched.RbTree.InsertRound.{red_shape}
use rtsched.RbTree.InsertFixup.{parent-top}
use rtsched.RbTree.RemoveSteps.{both_black}
use rtsched.RbTree.RemoveTurns.{Settled}

-- The loop's test.
abbrev pub goes_on : RbTree → Option Ptr → Bool
goes_on t x = not (same_ptr x t.root) && not (is_red (color_of t x))

-- The loop ends here, with a red-black tree.
abbrev pub Ends : RbTree → Option Ptr → List Ptr → Type 0
Ends t x xs = (goes_on t x ≡ false) × Linked (set_color_of t x black) xs

-- A black node is missing from every way through the subtree at `x`.
pub record Losing (t : RbTree) (x parent : Option Ptr) (xs : List Ptr) (bound : ℕ) : Type 0 where
  pub ctx : List Step
  pub focus : Shape
  pub height : ℕ
  pub at_x : root_of focus ≡ x
  pub at_parent : parent ≡ top ctx
  pub focus_black : shade focus ≡ black
  pub balanced : RedBlack height focus
  pub fits : Fits (suc height) black ctx
  pub at : At t ctx focus
  pub order : in_order (plug ctx focus) ≡ xs
  pub short : length ctx < bound

abbrev pub Outcome : List Ptr → ℕ → RbTree × Option Ptr × Option Ptr → Type 0
Outcome xs bound r = Ends r.0 r.1 xs ⊎ Losing r.0 r.1 r.2 xs bound

root_shade : (n : ℕ) (c : Color) → Fits n c [] → c ≡ black
unfolding Fits
root_shade n red f = elim f [ ]
root_shade n black f = refl

blacken-join :
    (d : Side) (c : Color) (a : Shape) (p : Ptr) (b : Shape)
    → blacken (join d c a p b) ≡ join d black a p b
blacken-join left_side c a p b = refl
blacken-join right_side c a p b = refl

-- What completes a red subtree completes a black one.
pub Fits-black : (n : ℕ) (ctx : List Step) → Fits n red ctx → Fits n black ctx
unfolding Fits
Fits-black n [] f = elim f [ ]
Fits-black n (step d red p far ∷ ctx) f = ground arith
Fits-black n (step d black p far ∷ ctx) f = f

both_black-true : (c e : Color) → both_black c e ≡ true → (c ≡ black) × (e ≡ black)
both_black-true red e i = ground arith
both_black-true black red i = ground arith
both_black-true black black i = (refl, refl)

pub shade-plug :
    (n : ℕ) (ctx : List Step) (s : Shape) → Fits n (shade s) ctx → shade (plug ctx s) ≡ black
unfolding Fits plug
shade-plug n [] s f = root_shade n (shade s) f
shade-plug n (step d red p far ∷ ctx) s f =
    shade-plug n ctx (join d red s p far)
      (subst (λ c. Fits n c ctx) (sym (shade-join d red s p far)) f.3)
shade-plug n (step d black p far ∷ ctx) s f =
    shade-plug (suc n) ctx (join d black s p far)
      (subst (λ c. Fits (suc n) c ctx) (sym (shade-join d black s p far)) f.1)

pub same_ptr_refl : (o : Option Ptr) → same_ptr o o ≡ true
same_ptr_refl none = refl
same_ptr_refl (some p) = ==_refl p

and_false : (b : Bool) → (b && false) ≡ false
and_false true = refl
and_false false = refl

-- At the root the loop ends.
pub Settled-Ends :
    (t : RbTree) (x : Option Ptr) (xs : List Ptr) → x ≡ t.root → Settled t xs → Ends t x xs
Settled-Ends t x xs i v =
    subst (λ o. Ends t o xs) (sym i)
      (
        rw (same_ptr_refl t.root) refl,
        subst (Linked (set_color_of t t.root black)) v.order
            (Linked-settle t v.height v.ctx v.focus v.at v.balanced),
      )

-- At a red node as well, which is blackened.
pub red-Ends :
    (t : RbTree) (ctx : List Step) (s : Shape) (m : ℕ) (xs : List Ptr)
    → shade s ≡ red
    → RedBlack m (blacken s)
    → Fits m black ctx
    → in_order (plug ctx s) ≡ xs
    → At t ctx s
    → Ends t (root_of s) xs
red-Ends t ctx s m xs i b f o v =
    let (l, q, r, e) = red_shape left_side s i in
    let s' = node black l q r in
    let same : blacken s ≡ s' = ap blacken e in
    (
      ap (λ c. not (same_ptr (root_of s) t.root) && not (is_red c))
            (color_of-root_of t (top ctx) s v.below ∙ i)
          ∙ and_false (not (same_ptr (root_of s) t.root)),
      subst (λ y. Linked (set_color_of t y black) xs) (sym (ap root_of e))
          (record {
            shape = plug ctx s';
            height = (Fits-plug m ctx s' (subst (RedBlack m) same b) f).0;
            at =
                At-plug (set_color t q black) ctx s'
                  (At-set_color t left_side red black l q r ctx (subst (At t ctx) e v));
            balanced = (Fits-plug m ctx s' (subst (RedBlack m) same b) f).1;
            root_black = shade-plug m ctx s' f;
            order = in_order-plug ctx s' s (sym (ap in_order same) ∙ in_order-blacken s) ∙ o;
          }),
    )

-- Both children of the sibling are black: it is made red, and the parent is next.
pub recolor_lem :
    (d : Side) (t : RbTree) (c : Color) (p : Ptr) (s : Shape) (ctx : List Step) (k : ℕ)
    (xs : List Ptr) (a : Shape) (q : Ptr) (b w : Shape) (bound : ℕ)
    → RedBlack k s
    → shade s ≡ black
    → RedBlack k a
    → RedBlack k b
    → both_black (shade a) (shade b) ≡ true
    → Fits (suc k) black (step d c p w ∷ ctx)
    → in_order (plug ctx (join d c s p (join d black a q b))) ≡ xs
    → At t (step d c p (join d black a q b) ∷ ctx) s
    → (c ≡ black → length ctx < bound)
    → Outcome xs bound (set_color t q red, some p, ((set_color t q red).nodes p).parent)
unfolding Fits
recolor_lem d t red p s ctx k xs a q b w bound bs ss ba bb n fits o v short =
    let t1 = set_color t q red in
    let blacks = both_black-true (shade a) (shade b) n in
    let w' = join d red a q b in
    let v1 =
      At-set_color_far t d d red black red a q b p s ctx
        (At-up t d red p (join d black a q b) ctx s v) in
    let whole = join d red s p w' in
    inl (
      subst (λ x. Ends t1 x xs) (root_of-join d red s p w')
        (red-Ends t1 ctx whole (suc k) xs (shade-join d red s p w')
          (subst (RedBlack (suc k)) (sym (blacken-join d red s p w'))
            (black-join k d s p w' bs (red-join k d a q b ba bb blacks.0 blacks.1)))
          (Fits-black (suc k) ctx fits.3)
          (in_order-plug ctx whole (join d red s p (join d black a q b))
              (in_order-far d red p s w' (join d black a q b) (in_order-recolor d red black a q b))
            ∙ o)
          v1))
recolor_lem d t black p s ctx k xs a q b w bound bs ss ba bb n fits o v short =
    let t1 = set_color t q red in
    let blacks = both_black-true (shade a) (shade b) n in
    let w' = join d red a q b in
    let v1 =
      At-set_color_far t d d black black red a q b p s ctx
        (At-up t d black p (join d black a q b) ctx s v) in
    let whole = join d black s p w' in
    inr (record {
      ctx = ctx;
      focus = whole;
      height = suc k;
      at_x = root_of-join d black s p w';
      at_parent = parent-top t1 ctx whole p (root_of-join d black s p w') v1;
      focus_black = shade-join d black s p w';
      balanced = black-join k d s p w' bs (red-join k d a q b ba bb blacks.0 blacks.1);
      fits = fits.1;
      at = v1;
      order =
          in_order-plug ctx whole (join d black s p (join d black a q b))
            (in_order-far d black p s w' (join d black a q b) (in_order-recolor d red black a q b))
          ∙ o;
      short = short refl;
    })
