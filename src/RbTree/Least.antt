-- ===== src/RbTree/Least.antt =====
-- The least node of the tree `node c l p r`, which `remove` in src/rbtree.rs takes out of the right subtree of a
-- node with two children: the way to it, and the tree without it.
use rtsched.Base.{ℕ, ◌+◌, ◌≤◌, Ptr, some, List, ◌∷◌, ◌++◌, ◌≡◌, ap, refl, arith}
use rtsched.RbTree.{RbTree, Color, red, black, Side, left_side}
use rtsched.RbTree.Shape.{
  Shape, leaf, node, Step, step, top, plug, in_order, At, At-up, At-down, count, hit, hit_self,
}
use rtsched.RbTree.Balance.{RedBlack, Fits}
use rtsched.RbTree.Locate.{Fits-down}

unfoldable pub path : Shape → Color → Ptr → Shape → List Step → List Step
path leaf c p r base = base
path (node c' l' p' r') c p r base = path l' c' p' r' (step left_side c p r ∷ base)

unfoldable pub least : Shape → Ptr → Ptr
least leaf p = p
least (node c' l' p' r') p = least l' p'

unfoldable pub least_color : Shape → Color → Color
least_color leaf c = c
least_color (node c' l' p' r') c = least_color l' c'

unfoldable pub least_right : Shape → Shape → Shape
least_right leaf r = r
least_right (node c' l' p' r') r = least_right l' r'

unfoldable pub without : Shape → Color → Ptr → Shape → Shape
without leaf c p r = r
without (node c' l' p' r') c p r = node c (without l' c' p' r') p r

abbrev pub least_node : Shape → Color → Ptr → Shape → Shape
least_node l c p r = node (least_color l c) leaf (least l p) (least_right l r)

pub At-path :
    (t : RbTree) (l : Shape) (c : Color) (p : Ptr) (r : Shape) (base : List Step)
    → At t base (node c l p r)
    → At t (path l c p r base) (least_node l c p r)
unfolding path least least_color least_right
At-path t leaf c p r base v = v
At-path t (node c' l' p' r') c p r base v =
    At-path t l' c' p' r' (step left_side c p r ∷ base)
      (At-down t left_side c p r base (node c' l' p' r') v)

-- Without the least node, its right subtree stands in its place.
pub At-without :
    (t : RbTree) (l : Shape) (c : Color) (p : Ptr) (r : Shape) (base : List Step)
    → At t base (without l c p r)
    → At t (path l c p r base) (least_right l r)
unfolding path without least_right
At-without t leaf c p r base v = v
At-without t (node c' l' p' r') c p r base v =
    At-without t l' c' p' r' (step left_side c p r ∷ base)
      (At-down t left_side c p r base (without l' c' p' r') v)

pub without-At :
    (t : RbTree) (l : Shape) (c : Color) (p : Ptr) (r : Shape) (base : List Step)
    → At t (path l c p r base) (least_right l r)
    → At t base (without l c p r)
unfolding path without least_right
without-At t leaf c p r base v = v
without-At t (node c' l' p' r') c p r base v =
    At-up t left_side c p r base (without l' c' p' r')
      (without-At t l' c' p' r' (step left_side c p r ∷ base) v)

pub in_order-without :
    (l : Shape) (c : Color) (p : Ptr) (r : Shape)
    → in_order (node c l p r) ≡ least l p ∷ in_order (without l c p r)
unfolding in_order least without
in_order-without leaf c p r = refl
in_order-without (node c' l' p' r') c p r =
    ap (λ xs. xs ++ p ∷ in_order r) (in_order-without l' c' p' r')

pub count-without :
    (a : Ptr) (l : Shape) (c : Color) (p : Ptr) (r : Shape)
    → count a (node c l p r) ≡ hit a (least l p) + count a (without l c p r)
unfolding count least without
count-without a leaf c p r = omega arith
count-without a (node c' l' p' r') c p r = omega (arith, count-without a l' c' p' r')

pub plug-path :
    (l : Shape) (c : Color) (p : Ptr) (r : Shape) (base : List Step)
    → plug (path l c p r base) (least_right l r) ≡ plug base (without l c p r)
unfolding plug path without least_right
plug-path leaf c p r base = refl
plug-path (node c' l' p' r') c p r base = plug-path l' c' p' r' (step left_side c p r ∷ base)

pub Fits-path :
    (k : ℕ) (l : Shape) (c : Color) (p : Ptr) (r : Shape) (base : List Step)
    → RedBlack k (node c l p r)
    → Fits k c base
    → (m : ℕ) × RedBlack m (least_node l c p r) × Fits m (least_color l c) (path l c p r base)
unfolding path least least_color least_right
Fits-path k leaf c p r base b f = (k, b, f)
Fits-path k (node c' l' p' r') c p r base b f =
    let parts = Fits-down k c (node c' l' p' r') p r base b f in
    Fits-path parts.0 l' c' p' r' (step left_side c p r ∷ base) parts.1 parts.3

-- Above the least node stands a node of the tree, unless the least node is the root.
pub top-path :
    (c' : Color) (l' : Shape) (p' : Ptr) (r' : Shape) (c : Color) (p : Ptr) (r : Shape)
    → (q : Ptr) × ((base : List Step) → top (path (node c' l' p' r') c p r base) ≡ some q)
      × (1 ≤ count q (node c (node c' l' p' r') p r))
unfolding path count
top-path c' leaf p' r' c p r = (p, λ base. refl, omega (arith, hit_self p))
top-path c' (node c2 l2 p2 r2) p' r' c p r =
    let (q, e, n) = top-path c2 l2 p2 r2 c' p' r' in
    (q, λ base. e (step left_side c p r ∷ base), omega (arith, n))

-- What completes a tree does not depend on the address of a node.
pub Fits-rename :
    (n : ℕ) (e : Color) (d : Side) (c : Color) (p p' : Ptr) (far : Shape) (ctx : List Step)
    → Fits n e (step d c p far ∷ ctx)
    → Fits n e (step d c p' far ∷ ctx)
unfolding Fits
Fits-rename n e d red p p' far ctx f = f
Fits-rename n e d black p p' far ctx f = f
