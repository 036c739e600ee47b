-- ===== src/RbTree/Shape.antt =====
-- What the links of src/rbtree.rs stand for: a tree of addresses, and the way from the root down to a
-- subtree. A node of either is described by the side on which the way goes on.
use rtsched.Base.{
  ℕ, ◌+◌, ◌≤◌, subst, Ptr, Option, none, some, List, [], ◌∷◌, ◌++◌, ◌==◌, ◌≡◌, ==_refl, refl,
  if◌then◌else◌, arith,
}
use rtsched.RbTree.{RbNode, RbTree, Color, Side, left_side, right_side}

pub data Shape : Type 0 where
  leaf : Shape
  node : Color → Shape → Ptr → Shape → Shape

-- The side on which the way goes on, then what the node has besides: its colour, its address and
-- the other subtree.
pub data Step : Type 0 where
  step : Side → Color → Ptr → Shape → Step

abbrev pub root_of : Shape → Option Ptr
root_of leaf = none
root_of (node c l p r) = some p

abbrev pub top : List Step → Option Ptr
top [] = none
top (step d c p s ∷ ctx) = some p

-- A node with its near subtree on side `d`.
abbrev pub join : Side → Color → Shape → Ptr → Shape → Shape
join left_side c near p far = node c near p far
join right_side c near p far = node c far p near

abbrev pub cell : Side → Color → Option Ptr → Option Ptr → Option Ptr → RbNode
cell left_side c up near far = record { parent = up; left = near; right = far; color = c }
cell right_side c up near far = record { parent = up; left = far; right = near; color = c }

unfoldable pub plug : List Step → Shape → Shape
plug [] s = s
plug (step d c p far ∷ ctx) s = plug ctx (join d c s p far)

unfoldable pub in_order : Shape → List Ptr
in_order leaf = []
in_order (node c l p r) = in_order l ++ p ∷ in_order r

abbrev pub hit : Ptr → Ptr → ℕ
hit a p = if a == p then 1 else 0

-- How often an address stands in a tree, and along a way.
unfoldable pub count : Ptr → Shape → ℕ
count a leaf = 0
count a (node c l p r) = hit a p + count a l + count a r

unfoldable pub count_along : Ptr → List Step → ℕ
count_along a [] = 0
count_along a (step d c p far ∷ ctx) = hit a p + count a far + count_along a ctx

-- The store holds the tree below a parent.
unfoldable pub Below : (Ptr → RbNode) → Option Ptr → Shape → Type 0
Below h up leaf = Unit
Below h up (node c l p r) =
    (h p ≡ cell left_side c up (root_of l) (root_of r)) × Below h (some p) l × Below h (some p) r

-- It holds the way from the root to a link with a value.
unfoldable pub Along : (Ptr → RbNode) → Option Ptr → List Step → Option Ptr → Type 0
unfolding Below
Along h root [] x = root ≡ x
Along h root (step d c p far ∷ ctx) x =
    (h p ≡ cell d c (top ctx) x (root_of far)) × Below h (some p) far × Along h root ctx (some p)

-- The tree of the store is `s` below `ctx`, and no address stands in it twice.
pub record At (t : RbTree) (ctx : List Step) (s : Shape) : Type 0 where
  pub along : Along t.nodes t.root ctx (root_of s)
  pub below : Below t.nodes (top ctx) s
  pub once : (a : Ptr) → count_along a ctx + count a s ≤ 1

pub count-join :
    (a : Ptr) (d : Side) (c : Color) (near : Shape) (p : Ptr) (far : Shape)
    → count a (join d c near p far) ≡ hit a p + count a near + count a far
unfolding count
count-join a left_side c near p far = refl
count-join a right_side c near p far = omega arith

pub root_of-join :
    (d : Side) (c : Color) (near : Shape) (p : Ptr) (far : Shape)
    → root_of (join d c near p far) ≡ some p
root_of-join left_side c near p far = refl
root_of-join right_side c near p far = refl

-- The node of a joined tree, from the side of the join, and back.
pub Below-join :
    (h : Ptr → RbNode) (up : Option Ptr) (d : Side) (c : Color) (near : Shape) (p : Ptr)
    (far : Shape)
    → Below h up (join d c near p far)
    → (h p ≡ cell d c up (root_of near) (root_of far))
      × Below h (some p) near
      × Below h (some p) far
unfolding Below
Below-join h up left_side c near p far b = b
Below-join h up right_side c near p far b = (b.0, b.2, b.1)

pub join-Below :
    (h : Ptr → RbNode) (up : Option Ptr) (d : Side) (c : Color) (near : Shape) (p : Ptr)
    (far : Shape)
    → h p ≡ cell d c up (root_of near) (root_of far)
    → Below h (some p) near
    → Below h (some p) far
    → Below h up (join d c near p far)
unfolding Below
join-Below h up left_side c near p far e n f = (e, n, f)
join-Below h up right_side c near p far e n f = (e, f, n)

pub hit_self : (a : Ptr) → hit a a ≡ 1
hit_self a = rw (==_refl a) refl

-- A root stands in its tree.
pub count-root_of : (s : Shape) (p : Ptr) → root_of s ≡ some p → 1 ≤ count p s
unfolding count
count-root_of leaf p e = ground arith
count-root_of (node c l q r) p e = ground (arith, hit_self p)

pub count-top : (ctx : List Step) (p : Ptr) → top ctx ≡ some p → 1 ≤ count_along p ctx
unfolding count_along
count-top [] p e = ground arith
count-top (step d c q far ∷ ctx) p e = ground (arith, hit_self p)

-- The focus moves up.
pub At-up :
    (t : RbTree) (d : Side) (c : Color) (p : Ptr) (far : Shape) (ctx : List Step) (s : Shape)
    → At t (step d c p far ∷ ctx) s
    → At t ctx (join d c s p far)
unfolding Along count_along
At-up t d c p far ctx s v = record {
  along = rw (root_of-join d c s p far) v.along.2;
  below = join-Below t.nodes (top ctx) d c s p far v.along.0 v.below v.along.1;
  once = λ a. omega (arith, count-join a d c s p far, v.once a);
}

-- The focus moves down to side `d`.
pub At-down :
    (t : RbTree) (d : Side) (c : Color) (p : Ptr) (far : Shape) (ctx : List Step) (s : Shape)
    → At t ctx (join d c s p far)
    → At t (step d c p far ∷ ctx) s
unfolding Along count_along
At-down t d c p far ctx s v =
    let b = Below-join t.nodes (top ctx) d c s p far v.below in
    record {
      along =
          (b.0, b.2, subst (λ x. Along t.nodes t.root ctx x) (root_of-join d c s p far) v.along);
      below = b.1;
      once = λ a. omega (arith, count-join a d c s p far, v.once a);
    }

pub At-plug : (t : RbTree) (ctx : List Step) (s : Shape) → At t ctx s → At t [] (plug ctx s)
unfolding plug
At-plug t [] s v = v
At-plug t (step d c p far ∷ ctx) s v = At-plug t ctx (join d c s p far) (At-up t d c p far ctx s v)
