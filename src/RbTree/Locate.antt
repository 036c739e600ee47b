-- ===== src/RbTree/Locate.antt =====
-- The place of a linked entity in a tree of src/rbtree.rs, and the order around it.
use rtsched.Base.{
  ℕ, suc, zero, Ptr, List, [], ◌∷◌, ◌++◌, ◌≡◌, inl, inr, ◌∙◌, ap, sym, subst, arith, has, ◌∈◌, ◌==◌,
  append_assoc, append-nil, Bool-cases,
}
use rtsched.RbTree.{RbTree, Color, red, black, left_side, right_side}
use rtsched.RbTree.Shape.{Shape, leaf, node, Step, step, plug, in_order, At, At-down}
use rtsched.RbTree.Balance.{shade, RedBlack, Fits, Holds}
use rtsched.RbTree.Inserted.{has-append}

-- What stands before and after a subtree.
unfoldable pub before : List Step → List Ptr
before [] = []
before (step left_side c p far ∷ ctx) = before ctx
before (step right_side c p far ∷ ctx) = before ctx ++ (in_order far ++ p ∷ [])

unfoldable pub after : List Step → List Ptr
after [] = []
after (step left_side c p far ∷ ctx) = p ∷ in_order far ++ after ctx
after (step right_side c p far ∷ ctx) = after ctx

pub in_order-around :
    (ctx : List Step) (s : Shape) → in_order (plug ctx s) ≡ before ctx ++ (in_order s ++ after ctx)
unfolding plug in_order before after
in_order-around [] s = sym (append-nil (in_order s))
in_order-around (step left_side c p far ∷ ctx) s =
    in_order-around ctx (node c s p far)
    ∙ ap (λ ys. before ctx ++ ys) (append_assoc (in_order s) (p ∷ in_order far) (after ctx))
in_order-around (step right_side c p far ∷ ctx) s =
    in_order-around ctx (node c far p s)
    ∙ ap (λ ys. before ctx ++ ys) (append_assoc (in_order far) (p ∷ in_order s) (after ctx))
    ∙ sym (
        append_assoc (before ctx) (in_order far ++ p ∷ []) (in_order s ++ after ctx)
        ∙ ap (λ ys. before ctx ++ ys)
            (append_assoc (in_order far) (p ∷ []) (in_order s ++ after ctx)))

-- A linked entity's node, with what is around it.
pub record Located (t : RbTree) (e : Ptr) (xs : List Ptr) : Type 0 where
  pub ctx : List Step
  pub color : Color
  pub left : Shape
  pub right : Shape
  pub height : ℕ
  pub at : At t ctx (node color left e right)
  pub balanced : RedBlack height (node color left e right)
  pub fits : Fits height color ctx
  pub order : in_order (plug ctx (node color left e right)) ≡ xs

-- The subtrees of a node that fits, and what they fit.
pub Fits-down :
    (k : ℕ) (c : Color) (l : Shape) (p : Ptr) (r : Shape) (ctx : List Step)
    → RedBlack k (node c l p r)
    → Fits k c ctx
    → (m : ℕ) × RedBlack m l
      × RedBlack m r
      × Fits m (shade l) (step left_side c p r ∷ ctx)
      × Fits m (shade r) (step right_side c p l ∷ ctx)
unfolding RedBlack Fits
Fits-down k red l p r ctx b f = (k, b.0, b.1, (b.2, b.1, b.3, f), (b.3, b.0, b.2, f))
Fits-down zero black l p r ctx b f = elim b [ ]
Fits-down (suc k) black l p r ctx b f = (k, b.0, b.1, (b.1, f), (b.0, f))

Fits-nil : (k : ℕ) → Fits k black []
unfolding Fits
Fits-nil k = tt

pub locate :
    (t : RbTree) (e : Ptr) (xs : List Ptr) (s : Shape) (ctx : List Step) (k : ℕ)
    → e ∈ in_order s
    → At t ctx s
    → RedBlack k s
    → Fits k (shade s) ctx
    → in_order (plug ctx s) ≡ xs
    → Located t e xs
unfolding in_order plug RedBlack
locate t e xs leaf ctx k m v b f o = ground arith
locate t e xs (node c l p r) ctx k m v b f o = elim (Bool-cases (e == p)) [
  | inl i ↦
      let same : p ≡ e = ground arith in
      record {
        ctx = ctx;
        color = c;
        left = l;
        right = r;
        height = k;
        at = subst (λ q. At t ctx (node c l q r)) same v;
        balanced = subst (λ q. RedBlack k (node c l q r)) same b;
        fits = f;
        order = subst (λ q. in_order (plug ctx (node c l q r)) ≡ xs) same o;
      }
  | inr i ↦
      let parts = Fits-down k c l p r ctx b f in
      elim (Bool-cases (has e (in_order l))) [
        | inl j ↦
            locate t e xs l (step left_side c p r ∷ ctx) parts.0 j
              (At-down t left_side c p r ctx l v) parts.1 parts.3 o
        | inr j ↦
            let there : e ∈ in_order r =
              ground (arith, has-append e (in_order l) (p ∷ in_order r)) in
            locate t e xs r (step right_side c p l ∷ ctx) parts.0 there
              (At-down t right_side c p l ctx r v) parts.2 parts.4 o
      ]
]

pub Holds-locate : (t : RbTree) (e : Ptr) (xs : List Ptr) → Holds t xs → e ∈ xs → Located t e xs
unfolding plug
Holds-locate t e xs h m =
    let w = h.linked in
    locate t e xs w.shape [] w.height (rw w.order m) w.at w.balanced
      (rw (w.root_black) (Fits-nil w.height)) w.order
