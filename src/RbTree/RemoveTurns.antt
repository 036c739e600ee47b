-- ===== src/RbTree/RemoveTurns.antt =====
-- The rotations of a round of `remove_fixup` in src/rbtree.rs, where the black sibling has a red child.
use rtsched.Base.{
  ℕ, suc, Ptr, true, false, Option, some, List, ◌∷◌, ◌≡◌, ◌∙◌, ap, sym, refl, subst, arith,
}
use rtsched.Kernel.{Result, done, Returns, Returns->>=, Returns-imp, ◌>>=◌}
use rtsched.RbTree.{
  RbNode, RbTree, Color, red, black, Side, flip, child, child_of, color_of, is_red, set_color,
  set_color_of, rotate,
}
use rtsched.RbTree.Remove.{redden_outer, rotate_of}
use rtsched.RbTree.Shape.{
  Shape, Step, step, root_of, top, join, plug, in_order, Along, At, At-up, At-down, root_of-join,
}
use rtsched.RbTree.Rotate.{rotate_lem, flip-rotate_lem}
use rtsched.RbTree.Balance.{
  shade, RedBlack, Fits, Fits-plug, red-join, join-red, black-join, shade-join, in_order-plug,
  in_order-far, in_order-rotate, in_order-recolor,
}
use rtsched.RbTree.Recolor.{At-set_color, At-set_color_near, At-set_color_far, At-flip, flip-At}
use rtsched.RbTree.InsertRound.{red_shape}
use rtsched.RbTree.InsertLoop.{cell-color}
use rtsched.RbTree.RemoveSteps.{sibling-At, far-Below, children-Below, both_black}

-- A black sibling `q` whose outer child is red.
pub record Reddened (d : Side) (t : RbTree) (c : Color) (p : Ptr) (s : Shape) (ctx : List Step)
    (k : ℕ) (xs : List Ptr) (q : Ptr) : Type 0 where
  pub a : Shape
  pub b : Shape
  pub at : At t (step d c p (join d black a q b) ∷ ctx) s
  pub a_balanced : RedBlack k a
  pub b_balanced : RedBlack k b
  pub b_red : shade b ≡ red
  pub order : in_order (plug ctx (join d c s p (join d black a q b))) ≡ xs

abbrev redden_on : Side → RbTree → Ptr → Ptr → Option Ptr → Color → Result (RbTree × Option Ptr)
redden_on d t p q near c = elim (is_red c) [
  | true ↦ done (t, some q)
  | false ↦ rotate_of (flip d) (set_color_of t near black) (some q) >>= λ t1.
      done (t1, child (flip d) (t1.nodes p))
]

abbrev pub IsReddened :
    Side → RbTree → Color → Ptr → Shape → List Step → ℕ → List Ptr → RbTree × Option Ptr → Type 0
IsReddened d t c p s ctx k xs r =
    (q : Ptr) × Reddened d r.0 c p s ctx k xs q × (r.1 ≡ some q) × (r.0.len ≡ t.len)

-- The inner child is the red one: it comes up.
redden_inner_lem :
    (d : Side) (t : RbTree) (c : Color) (p : Ptr) (s : Shape) (ctx : List Step) (k : ℕ)
    (xs : List Ptr) (a1 : Shape) (r : Ptr) (a2 : Shape) (q : Ptr) (b : Shape)
    → RedBlack k (join d red a1 r a2)
    → RedBlack k b
    → shade b ≡ black
    → in_order (plug ctx (join d c s p (join d black (join d red a1 r a2) q b))) ≡ xs
    → At t (step d c p (join d black (join d red a1 r a2) q b) ∷ ctx) s
    → Returns (IsReddened d t c p s ctx k xs) (redden_on d t p q (some r) black)
redden_inner_lem d t c p s ctx k xs a1 r a2 q b ba bb sb o v =
    let (b1, b2, s1, s2) = join-red k d a1 r a2 ba in
    let w = join d black (join d red a1 r a2) q b in
    let ctxw = step (flip d) c p s ∷ ctx in
    let t2 = set_color (set_color t r black) q red in
    let v2 =
      At-set_color (set_color t r black) d black red (join d black a1 r a2) q b ctxw
        (At-set_color_near t d d black red black a1 r a2 q b ctxw (At-flip t d c p w ctx s v)) in
    let w' = join d black a1 r (join d red a2 q b) in
    Returns->>= (λ t3. At t3 ctxw w' × (t3.len ≡ t.len)) (IsReddened d t c p s ctx k xs)
      (rotate (flip d) t2 q) (λ t3. done (t3, child (flip d) (t3.nodes p)))
      (flip-rotate_lem d red black q r b a2 a1 ctxw t2 v2)
      (λ t3 (v3, len).
        let v4 = flip-At t3 d c p w' ctx s v3 in
        (
          r,
          record {
            a = a1;
            b = join d red a2 q b;
            at = v4;
            a_balanced = b1;
            b_balanced = red-join k d a2 q b b2 bb s2 sb;
            b_red = shade-join d red a2 q b;
            order =
                in_order-plug ctx (join d c s p w') (join d c s p w)
                  (in_order-far d c p s w' w (in_order-rotate d black red black red a1 r a2 q b))
                ∙ o;
          },
          sibling-At t3 d c p w' ctx s v4 ∙ root_of-join d black a1 r (join d red a2 q b),
          len,
        ))

redden_on_lem :
    (ea eb : Color) (d : Side) (t : RbTree) (c : Color) (p : Ptr) (s : Shape) (ctx : List Step)
    (k : ℕ) (xs : List Ptr) (a : Shape) (q : Ptr) (b : Shape)
    → shade a ≡ ea
    → shade b ≡ eb
    → both_black ea eb ≡ false
    → RedBlack k a
    → RedBlack k b
    → in_order (plug ctx (join d c s p (join d black a q b))) ≡ xs
    → At t (step d c p (join d black a q b) ∷ ctx) s
    → Returns (IsReddened d t c p s ctx k xs) (redden_on d t p q (root_of a) eb)
redden_on_lem ea red d t c p s ctx k xs a q b i j n ba bb o v = (
  q,
  record { a = a; b = b; at = v; a_balanced = ba; b_balanced = bb; b_red = j; order = o },
  refl,
  refl,
)
redden_on_lem black black d t c p s ctx k xs a q b i j n ba bb o v = ground arith
redden_on_lem red black d t c p s ctx k xs a q b i j n ba bb o v =
    let (a1, r, a2, e) = red_shape d a i in
    subst (λ x. Returns (IsReddened d t c p s ctx k xs) (redden_on d t p q x black))
      (sym (ap root_of e ∙ root_of-join d red a1 r a2))
      (redden_inner_lem d t c p s ctx k xs a1 r a2 q b (subst (RedBlack k) e ba) bb j
        (subst (λ y. in_order (plug ctx (join d c s p (join d black y q b))) ≡ xs) e o)
        (subst (λ y. At t (step d c p (join d black y q b) ∷ ctx) s) e v))

pub redden_outer_lem :
    (d : Side) (t : RbTree) (c : Color) (p : Ptr) (s : Shape) (ctx : List Step) (k : ℕ)
    (xs : List Ptr) (a : Shape) (q : Ptr) (b : Shape)
    → both_black (shade a) (shade b) ≡ false
    → RedBlack k a
    → RedBlack k b
    → in_order (plug ctx (join d c s p (join d black a q b))) ≡ xs
    → At t (step d c p (join d black a q b) ∷ ctx) s
    → Returns (IsReddened d t c p s ctx k xs) (redden_outer d t p (some q))
redden_outer_lem d t c p s ctx k xs a q b n ba bb o v =
    let (ca, cb, sa, sb) =
      children-Below t (some p) d black a q b (far-Below t d c p (join d black a q b) ctx s v) in
    subst (Returns (IsReddened d t c p s ctx k xs))
      (sym (
        ap (λ x. redden_on d t p q x (color_of t (child_of (flip d) t (some q)))) ca
        ∙ ap (redden_on d t p q (root_of a)) (ap (color_of t) cb ∙ sb)))
      (redden_on_lem (shade a) (shade b) d t c p s ctx k xs a q b refl refl n ba bb o v)

-- A whole tree, seen from a place in it.
pub record Settled (t : RbTree) (xs : List Ptr) : Type 0 where
  pub ctx : List Step
  pub focus : Shape
  pub height : ℕ
  pub at : At t ctx focus
  pub balanced : RedBlack height (plug ctx focus)
  pub order : in_order (plug ctx focus) ≡ xs

-- The last rotation of the loop.
abbrev pub raise_sibling : Side → RbTree → Ptr → Ptr → Result RbTree
raise_sibling d t p q =
    let t4 = set_color (set_color t q (t.nodes p).color) p black in
    rotate d (set_color_of t4 (child_of (flip d) t4 (some q)) black) p

raised_balanced :
    (d : Side) (c : Color) (k : ℕ) (ctx : List Step) (p q r : Ptr) (s a w b1 b2 : Shape)
    → RedBlack k s
    → RedBlack k a
    → RedBlack k b1
    → RedBlack k b2
    → Fits (suc k) black (step d c p w ∷ ctx)
    → (m : ℕ) × RedBlack m (plug ctx (join d c (join d black s p a) q (join d black b1 r b2)))
unfolding Fits
raised_balanced d red k ctx p q r s a w b1 b2 bs ba c1 c2 f =
    let near = join d black s p a in
    let far = join d black b1 r b2 in
    Fits-plug (suc k) ctx (join d red near q far)
      (red-join (suc k) d near q far (black-join k d s p a bs ba) (black-join k d b1 r b2 c1 c2)
        (shade-join d black s p a) (shade-join d black b1 r b2))
      (subst (λ e. Fits (suc k) e ctx) (sym (shade-join d red near q far)) f.3)
raised_balanced d black k ctx p q r s a w b1 b2 bs ba c1 c2 f =
    let near = join d black s p a in
    let far = join d black b1 r b2 in
    Fits-plug (suc (suc k)) ctx (join d black near q far)
      (black-join (suc k) d near q far (black-join k d s p a bs ba) (black-join k d b1 r b2 c1 c2))
      (subst (λ e. Fits (suc (suc k)) e ctx) (sym (shade-join d black near q far)) f.1)

in_order-raised :
    (d : Side) (c : Color) (s : Shape) (p : Ptr) (a : Shape) (q : Ptr) (b1 : Shape) (r : Ptr)
    (b2 : Shape)
    → in_order (join d c (join d black s p a) q (join d black b1 r b2))
      ≡ in_order (join d c s p (join d black a q (join d red b1 r b2)))
in_order-raised d c s p a q b1 r b2 =
    in_order-far d c q (join d black s p a) (join d black b1 r b2) (join d red b1 r b2)
      (in_order-recolor d black red b1 r b2)
    ∙ sym (in_order-rotate d c black c black s p a q (join d red b1 r b2))

pub raise_sibling-At :
    (d : Side) (t : RbTree) (c : Color) (p : Ptr) (s : Shape) (ctx : List Step) (k : ℕ)
    (xs : List Ptr) (a : Shape) (q : Ptr) (b1 : Shape) (r : Ptr) (b2 w : Shape)
    → RedBlack k s
    → RedBlack k a
    → RedBlack k (join d red b1 r b2)
    → Fits (suc k) black (step d c p w ∷ ctx)
    → in_order (plug ctx (join d c s p (join d black a q (join d red b1 r b2)))) ≡ xs
    → At t (step d c p (join d black a q (join d red b1 r b2)) ∷ ctx) s
    → Returns (λ t1. Settled t1 xs × (t1.len ≡ t.len)) (raise_sibling d t p q)
unfolding Along
raise_sibling-At d t c p s ctx k xs a q b1 r b2 w bs ba bb fits o v =
    let (c1, c2, s1, s2) = join-red k d b1 r b2 bb in
    let b = join d red b1 r b2 in
    let b' = join d black b1 r b2 in
    let t4 = set_color (set_color t q c) p black in
    let v4 = At-set_color (set_color t q c) d c black s p (join d c a q b) ctx (
      At-set_color_far t d d c black c a q b p s ctx
        (At-up t d c p (join d black a q b) ctx s v)) in
    let v4w =
      At-flip t4 d black p (join d c a q b) ctx s
        (At-down t4 d black p (join d c a q b) ctx s v4) in
    let t5 = set_color t4 r black in
    let v5 = At-up t5 d black p (join d c a q b') ctx s (
      flip-At t5 d black p (join d c a q b') ctx s
        (At-set_color_far t4 d d c red black b1 r b2 q a (step (flip d) black p s ∷ ctx) v4w)) in
    let outer = (children-Below t4 (some p) d c a q b v4w.below).1 ∙ root_of-join d red b1 r b2 in
    let here =
      ap (λ (m : RbNode). m.color) v.along.0
      ∙ cell-color d c (top ctx) (root_of s) (root_of (join d black a q b)) in
    let final = join d c (join d black s p a) q b' in
    let (m, balanced) = raised_balanced d c k ctx p q r s a w b1 b2 bs ba c1 c2 fits in
    subst (Returns (λ t1. Settled t1 xs × (t1.len ≡ t.len)))
      (sym (
        ap
          (λ e.
            let t4 = set_color (set_color t q e) p black in
            rotate d (set_color_of t4 (child_of (flip d) t4 (some q)) black) p)
          here
        ∙ ap (λ x. rotate d (set_color_of t4 x black) p) outer))
      (Returns-imp
        (λ t6 (v6, len). (
          record {
            ctx = ctx;
            focus = final;
            height = m;
            at = v6;
            balanced = balanced;
            order =
                in_order-plug ctx final (join d c s p (join d black a q b))
                  (in_order-raised d c s p a q b1 r b2)
                ∙ o;
          },
          len,
        ))
        (rotate d t5 p) (rotate_lem d black c p q s a b' ctx t5 v5))
