-- ===== src/RbTree/RemoveLoop.antt =====
-- The loop of `remove_fixup` in src/rbtree.rs: it ends, with a red-black tree in the same order.
use rtsched.Base.{
  ℕ, suc, ◌<◌, Ptr, Bool, true, false, Option, none, some, List, ◌∷◌, ◌≡◌, inl, ◌∙◌, ap, sym, refl,
  subst, arith, length,
}
use rtsched.Kernel.{Result, done, Returns, Returns->>=, Returns-imp, ◌>>=◌}
use rtsched.RbTree.{
  RbTree, Color, red, black, Side, flip, child_of, set_color, set_color_of, rotate,
}
use rtsched.RbTree.Remove.{
  remove_round, lower_red_sibling, redden_outer, sibling_has_black_children,
}
use rtsched.RbTree.Shape.{Shape, Step, step, root_of, join, plug, in_order, At, root_of-join}
use rtsched.RbTree.Balance.{shade, RedBlack, Fits}
use rtsched.RbTree.InsertRound.{red_shape}
use rtsched.RbTree.RemoveSteps.{
  Sibling, lower_red_sibling_lem, far-Below, black_shape, both_black,
  sibling_has_black_children_lem,
}
use rtsched.RbTree.RemoveTurns.{
  IsReddened, redden_outer_lem, Settled, raise_sibling, raise_sibling-At,
}
use rtsched.RbTree.RemoveRound.{Outcome, Settled-Ends, recolor_lem}

-- The rest of a round, from the sibling and the test of its children.
abbrev tail_on : Side → RbTree → Ptr → Option Ptr → Bool → Result (RbTree × Option Ptr × Option Ptr)
tail_on d t p w b = elim b [
  | true ↦ let t2 = set_color_of t w red in done (t2, some p, (t2.nodes p).parent)
  | false ↦ redden_outer d t p w >>= λ (t2, w2).
      let t3 = set_color_of t2 w2 (t2.nodes p).color in
      let t4 = set_color t3 p black in
      let t5 = set_color_of t4 (child_of (flip d) t4 w2) black in
      rotate d t5 p >>= λ t6. done (t6, t6.root, none)
]

abbrev raise_on : Side → RbTree → Ptr → Option Ptr → Result (RbTree × Option Ptr × Option Ptr)
raise_on d t p w =
    let t3 = set_color_of t w (t.nodes p).color in
    let t4 = set_color t3 p black in
    let t5 = set_color_of t4 (child_of (flip d) t4 w) black in
    rotate d t5 p >>= λ t6. done (t6, t6.root, none)

tail_false_lem :
    (d : Side) (t : RbTree) (c : Color) (p : Ptr) (s : Shape) (ctx : List Step) (k : ℕ)
    (xs : List Ptr) (a : Shape) (q : Ptr) (b w : Shape) (bound : ℕ)
    → both_black (shade a) (shade b) ≡ false
    → RedBlack k s
    → RedBlack k a
    → RedBlack k b
    → Fits (suc k) black (step d c p w ∷ ctx)
    → in_order (plug ctx (join d c s p (join d black a q b))) ≡ xs
    → At t (step d c p (join d black a q b) ∷ ctx) s
    → Returns (λ r. Outcome xs bound r × (r.0.len ≡ t.len)) (tail_on d t p (some q) false)
tail_false_lem d t c p s ctx k xs a q b w bound n bs ba bb fits o v =
    let P : Result (RbTree × Option Ptr × Option Ptr) → Type 0 =
      Returns (λ r. Outcome xs bound r × (r.0.len ≡ t.len)) in
    Returns->>= (IsReddened d t c p s ctx k xs) (λ r. Outcome xs bound r × (r.0.len ≡ t.len))
      (redden_outer d t p (some q)) (λ (t2, w2). raise_on d t2 p w2)
      (redden_outer_lem d t c p s ctx k xs a q b n ba bb o v)
      (λ (t2, w2) (q', u, i, len).
        let (b1, r, b2, e) = red_shape d u.b u.b_red in
        subst (λ x. P (raise_on d t2 p x)) (sym i)
          (Returns->>= (λ t6. Settled t6 xs × (t6.len ≡ t2.len))
            (λ r. Outcome xs bound r × (r.0.len ≡ t.len)) (raise_sibling d t2 p q')
            (λ t6. done (t6, t6.root, none))
            (raise_sibling-At d t2 c p s ctx k xs u.a q' b1 r b2 w bs u.a_balanced
              (subst (RedBlack k) e u.b_balanced) fits
              (subst (λ y. in_order (plug ctx (join d c s p (join d black u.a q' y))) ≡ xs) e
                u.order)
              (subst (λ y. At t2 (step d c p (join d black u.a q' y) ∷ ctx) s) e u.at))
            (λ t6 (v6, len6). (inl (Settled-Ends t6 t6.root xs refl v6), len6 ∙ len))))

tail_lem :
    (e : Bool) (d : Side) (t : RbTree) (c : Color) (p : Ptr) (s : Shape) (ctx : List Step) (k : ℕ)
    (xs : List Ptr) (a : Shape) (q : Ptr) (b w : Shape) (bound : ℕ)
    → both_black (shade a) (shade b) ≡ e
    → RedBlack k s
    → shade s ≡ black
    → RedBlack k a
    → RedBlack k b
    → Fits (suc k) black (step d c p w ∷ ctx)
    → in_order (plug ctx (join d c s p (join d black a q b))) ≡ xs
    → At t (step d c p (join d black a q b) ∷ ctx) s
    → (c ≡ black → length ctx < bound)
    → Returns (λ r. Outcome xs bound r × (r.0.len ≡ t.len)) (tail_on d t p (some q) e)
tail_lem true d t c p s ctx k xs a q b w bound n bs ss ba bb fits o v short =
    (recolor_lem d t c p s ctx k xs a q b w bound bs ss ba bb n fits o v short, refl)
tail_lem false d t c p s ctx k xs a q b w bound n bs ss ba bb fits o v short =
    tail_false_lem d t c p s ctx k xs a q b w bound n bs ba bb fits o v

pub far-RedBlack :
    (k : ℕ) (d : Side) (c : Color) (p : Ptr) (w : Shape) (ctx : List Step)
    → Fits k black (step d c p w ∷ ctx)
    → RedBlack k w
unfolding Fits
far-RedBlack k d red p w ctx f = f.1
far-RedBlack k d black p w ctx f = f.0

pub round_lem :
    (d : Side) (t : RbTree) (c : Color) (p : Ptr) (w s : Shape) (k : ℕ) (xs : List Ptr)
    (ctx : List Step)
    → RedBlack k s
    → shade s ≡ black
    → Fits (suc k) black (step d c p w ∷ ctx)
    → in_order (plug ctx (join d c s p w)) ≡ xs
    → At t (step d c p w ∷ ctx) s
    → Returns (λ r. Outcome xs (suc (length ctx)) r × (r.0.len ≡ t.len)) (remove_round d t p)
round_lem d t c p w s k xs ctx bs ss fits o v =
    let P : Result (RbTree × Option Ptr × Option Ptr) → Type 0 =
      Returns (λ r. Outcome xs (suc (length ctx)) r × (r.0.len ≡ t.len)) in
    Returns->>=
      (λ r. (u : Sibling d r.0 p s k xs (length ctx)) × (r.1 ≡ root_of u.w) × (r.0.len ≡ t.len))
      (λ r. Outcome xs (suc (length ctx)) r × (r.0.len ≡ t.len)) (lower_red_sibling d t p)
      (λ (t1, w1). tail_on d t1 p w1 (sibling_has_black_children t1 w1))
      (lower_red_sibling_lem d t c p w s k xs ctx fits o v)
      (λ (t1, w1) (u, i, len).
        let (a, q, b, e, ba, bb) =
          black_shape d k u.w (far-RedBlack (suc k) d u.color p u.w u.ctx u.fits) u.w_black in
        let v1 = subst (λ y. At t1 (step d u.color p y ∷ u.ctx) s) e u.at in
        let test =
          sibling_has_black_children_lem t1 (some p) d black a q b
            (far-Below t1 d u.color p (join d black a q b) u.ctx s v1) in
        subst P
          (sym (
            ap (λ x. tail_on d t1 p x (sibling_has_black_children t1 x))
              (i ∙ ap root_of e ∙ root_of-join d black a q b)
            ∙ ap (tail_on d t1 p (some q)) test))
          (Returns-imp (λ r (out, len1). (out, len1 ∙ len))
            (tail_on d t1 p (some q) (both_black (shade a) (shade b)))
            (tail_lem (both_black (shade a) (shade b)) d t1 u.color p s u.ctx k xs a q b u.w
              (suc (length ctx)) refl bs ss ba bb u.fits
              (subst (λ y. in_order (plug u.ctx (join d u.color s p y)) ≡ xs) e u.order) v1
              (λ j. omega (arith, u.short j)))))
