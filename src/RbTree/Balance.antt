-- ===== src/RbTree/Balance.antt =====
-- The colours of src/rbtree.rs: no red node has a red child, and every way down from a node passes as
-- many black nodes.
use rtsched.Base.{
  ℕ, suc, zero, Ptr, Option, List, [], ◌∷◌, ◌++◌, ◌≡◌, ap, sym, refl, subst, append_assoc, length,
}
use rtsched.RbTree.{RbTree, Color, red, black, Side, left_side, right_side, color_of}
use rtsched.RbTree.Shape.{Shape, leaf, node, Step, step, root_of, join, plug, in_order, Below, At}

abbrev pub shade : Shape → Color
shade leaf = black
shade (node c l p r) = c

-- The black height, and no red node with a red child.
unfoldable pub RedBlack : ℕ → Shape → Type 0
RedBlack n leaf = n ≡ 0
RedBlack n (node red l p r) = RedBlack n l × RedBlack n r × (shade l ≡ black) × (shade r ≡ black)
RedBlack zero (node black l p r) = ⊥
RedBlack (suc n) (node black l p r) = RedBlack n l × RedBlack n r

-- A tree of black height `n`, with a root of the given colour, completes the tree around it.
unfoldable pub Fits : ℕ → Color → List Step → Type 0
unfolding RedBlack
Fits n red [] = ⊥
Fits n black [] = Unit
Fits n c (step d red p far ∷ ctx) =
    (c ≡ black) × RedBlack n far × (shade far ≡ black) × Fits n red ctx
Fits n c (step d black p far ∷ ctx) = RedBlack n far × Fits (suc n) black ctx

pub red-join :
    (n : ℕ) (d : Side) (near : Shape) (p : Ptr) (far : Shape)
    → RedBlack n near
    → RedBlack n far
    → shade near ≡ black
    → shade far ≡ black
    → RedBlack n (join d red near p far)
unfolding RedBlack
red-join n left_side near p far b b' e e' = (b, b', e, e')
red-join n right_side near p far b b' e e' = (b', b, e', e)

pub join-red :
    (n : ℕ) (d : Side) (near : Shape) (p : Ptr) (far : Shape)
    → RedBlack n (join d red near p far)
    → RedBlack n near × RedBlack n far × (shade near ≡ black) × (shade far ≡ black)
unfolding RedBlack
join-red n left_side near p far b = b
join-red n right_side near p far b = (b.1, b.0, b.3, b.2)

pub black-join :
    (n : ℕ) (d : Side) (near : Shape) (p : Ptr) (far : Shape)
    → RedBlack n near
    → RedBlack n far
    → RedBlack (suc n) (join d black near p far)
unfolding RedBlack
black-join n left_side near p far b b' = (b, b')
black-join n right_side near p far b b' = (b', b)

pub shade-join :
    (d : Side) (c : Color) (near : Shape) (p : Ptr) (far : Shape) → shade (join d c near p far) ≡ c
shade-join left_side c near p far = refl
shade-join right_side c near p far = refl

-- The whole tree, from one that fits.
pub Fits-plug :
    (n : ℕ) (ctx : List Step) (s : Shape)
    → RedBlack n s
    → Fits n (shade s) ctx
    → (m : ℕ) × RedBlack m (plug ctx s)
unfolding Fits plug
Fits-plug n [] s b f = (n, b)
Fits-plug n (step d red p far ∷ ctx) s b f =
    Fits-plug n ctx (join d red s p far) (red-join n d s p far b f.1 f.0 f.2)
      (subst (λ c. Fits n c ctx) (sym (shade-join d red s p far)) f.3)
Fits-plug n (step d black p far ∷ ctx) s b f =
    Fits-plug (suc n) ctx (join d black s p far) (black-join n d s p far b f.0)
      (subst (λ c. Fits (suc n) c ctx) (sym (shade-join d black s p far)) f.1)

abbrev pub blacken : Shape → Shape
blacken leaf = leaf
blacken (node c l p r) = node black l p r

pub RedBlack-blacken : (n : ℕ) (s : Shape) → RedBlack n s → (m : ℕ) × RedBlack m (blacken s)
unfolding RedBlack
RedBlack-blacken n leaf b = (n, b)
RedBlack-blacken n (node red l p r) b = (suc n, (b.0, b.1))
RedBlack-blacken n (node black l p r) b = (n, b)

pub in_order-blacken : (s : Shape) → in_order (blacken s) ≡ in_order s
unfolding in_order
in_order-blacken leaf = refl
in_order-blacken (node c l p r) = refl

pub shade-blacken : (s : Shape) → shade (blacken s) ≡ black
shade-blacken leaf = refl
shade-blacken (node c l p r) = refl

-- The order around a subtree depends on the order of the subtree.
pub in_order-plug :
    (ctx : List Step) (s s' : Shape)
    → in_order s ≡ in_order s'
    → in_order (plug ctx s) ≡ in_order (plug ctx s')
unfolding plug in_order
in_order-plug [] s s' e = e
in_order-plug (step left_side c p far ∷ ctx) s s' e =
    in_order-plug ctx (node c s p far) (node c s' p far) (ap (λ xs. xs ++ p ∷ in_order far) e)
in_order-plug (step right_side c p far ∷ ctx) s s' e =
    in_order-plug ctx (node c far p s) (node c far p s') (ap (λ xs. in_order far ++ p ∷ xs) e)

pub in_order-near :
    (d : Side) (c : Color) (p : Ptr) (far s s' : Shape)
    → in_order s ≡ in_order s'
    → in_order (join d c s p far) ≡ in_order (join d c s' p far)
unfolding plug
in_order-near d c p far s s' e = in_order-plug (step d c p far ∷ []) s s' e

-- The order is the same before and after a rotation, whatever the colours.
pub in_order-rotate :
    (d : Side) (c c' c1 c1' : Color) (a : Shape) (x : Ptr) (b : Shape) (y : Ptr) (e : Shape)
    → in_order (join d c a x (join d c' b y e)) ≡ in_order (join d c1 (join d c1' a x b) y e)
unfolding in_order
in_order-rotate left_side c c' c1 c1' a x b y e =
    sym (append_assoc (in_order a) (x ∷ in_order b) (y ∷ in_order e))
in_order-rotate right_side c c' c1 c1' a x b y e =
    append_assoc (in_order e) (y ∷ in_order b) (x ∷ in_order a)

pub in_order-far :
    (d : Side) (c : Color) (p : Ptr) (near s s' : Shape)
    → in_order s ≡ in_order s'
    → in_order (join d c near p s) ≡ in_order (join d c near p s')
in_order-far left_side c p near s s' e = in_order-near right_side c p near s s' e
in_order-far right_side c p near s s' e = in_order-near left_side c p near s s' e

pub in_order-recolor :
    (d : Side) (c c' : Color) (a : Shape) (x : Ptr) (b : Shape)
    → in_order (join d c a x b) ≡ in_order (join d c' a x b)
unfolding in_order
in_order-recolor left_side c c' a x b = refl
in_order-recolor right_side c c' a x b = refl

-- The colour that the source reads through a link.
pub color_of-root_of :
    (t : RbTree) (up : Option Ptr) (s : Shape)
    → Below t.nodes up s
    → color_of t (root_of s) ≡ shade s
unfolding Below
color_of-root_of t up leaf b = refl
color_of-root_of t up (node c l p r) b = ap (λ n. n.color) b.0

-- What a tree of the source holds: a red-black tree with a black root, in this order.
pub record Linked (t : RbTree) (xs : List Ptr) : Type 0 where
  pub shape : Shape
  pub height : ℕ
  pub at : At t [] shape
  pub balanced : RedBlack height shape
  pub root_black : shade shape ≡ black
  pub order : in_order shape ≡ xs

-- The same, with the length that the source keeps.
pub record Holds (t : RbTree) (xs : List Ptr) : Type 0 where
  pub linked : Linked t xs
  pub len : t.len ≡ length xs
