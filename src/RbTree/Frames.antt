-- ===== src/RbTree/Frames.antt =====
-- What one write of src/rbtree.rs leaves in place, and what it makes of the link it writes.
use rtsched.Base.{
  ℕ, ◌≤◌, Ptr, false, Option, none, some, List, [], ◌∷◌, ◌≡◌, ◌∙◌, ap, sym, ==_refl, refl, if-of,
  same_ptr, update, update_self, update_ne, arith, subst,
}
use rtsched.RbTree.{
  RbNode, RbTree, Color, Side, left_side, right_side, flip, child, with_child, set_child,
  set_parent_of, replace_child,
}
use rtsched.RbTree.Shape.{
  Shape, leaf, node, Step, step, root_of, top, cell, count, count_along, hit_self, Below, Along,
}

-- Nothing is written at an address that is counted.
abbrev pub Agree : (Ptr → RbNode) → (Ptr → RbNode) → (Ptr → ℕ) → Type 0
Agree h h' f = (a : Ptr) → 1 ≤ f a → h' a ≡ h a

pub Below-Agree :
    (h h' : Ptr → RbNode) (up : Option Ptr) (s : Shape)
    → Agree h h' (λ a. count a s)
    → Below h up s
    → Below h' up s
unfolding Below count
Below-Agree h h' up leaf g b = tt
Below-Agree h h' up (node c l p r) g b = (
  g p (omega (arith, hit_self p)) ∙ b.0,
  Below-Agree h h' (some p) l (λ a i. g a (omega arith)) b.1,
  Below-Agree h h' (some p) r (λ a i. g a (omega arith)) b.2,
)

pub Along-Agree :
    (h h' : Ptr → RbNode) (root : Option Ptr) (ctx : List Step) (x : Option Ptr)
    → Agree h h' (λ a. count_along a ctx)
    → Along h root ctx x
    → Along h' root ctx x
unfolding Along count_along
Along-Agree h h' root [] x g b = b
Along-Agree h h' root (step d c p far ∷ ctx) x g b = (
  g p (omega (arith, hit_self p)) ∙ b.0,
  Below-Agree h h' (some p) far (λ a i. g a (omega arith)) b.1,
  Along-Agree h h' root ctx (some p) (λ a i. g a (omega arith)) b.2,
)

pub Agree-trans :
    (h h' h'' : Ptr → RbNode) (f : Ptr → ℕ) → Agree h h' f → Agree h' h'' f → Agree h h'' f
Agree-trans h h' h'' f g g' a i = g' a i ∙ g a i

pub Agree-update :
    (h : Ptr → RbNode) (p : Ptr) (n : RbNode) (f : Ptr → ℕ) → f p ≡ 0 → Agree h (update h p n) f
Agree-update h p n f z a i =
    update_ne h p n a (λ e. let i' : 1 ≤ f p = subst (λ q. 1 ≤ f q) e i in omega arith)

pub Agree-set_parent_of :
    (t : RbTree) (x v : Option Ptr) (f : Ptr → ℕ)
    → ((p : Ptr) → x ≡ some p → f p ≡ 0)
    → Agree t.nodes (set_parent_of t x v).nodes f
Agree-set_parent_of t none v f z = λ a i. refl
Agree-set_parent_of t (some p) v f z = Agree-update t.nodes p _ f (z p refl)

pub Agree-replace_child :
    (d : Side) (t : RbTree) (x : Ptr) (up v : Option Ptr) (f : Ptr → ℕ)
    → ((p : Ptr) → up ≡ some p → f p ≡ 0)
    → Agree t.nodes (replace_child d t x up v).nodes f
unfolding replace_child
Agree-replace_child d t x none v f z = λ a i. refl
Agree-replace_child d t x (some p) v f z =
    if-of (λ t1. Agree t.nodes t1.nodes f) (same_ptr (some x) (child d (t.nodes p)))
      (set_child d t p v) (set_child (flip d) t p v) (λ _. Agree-update t.nodes p _ f (z p refl))
      (λ _. Agree-update t.nodes p _ f (z p refl))

pub root-set_parent_of : (t : RbTree) (x v : Option Ptr) → t.root ≡ (set_parent_of t x v).root
root-set_parent_of t none v = refl
root-set_parent_of t (some p) v = refl

-- A tree whose root is given another parent.
pub Below-set_parent_of :
    (t : RbTree) (up v : Option Ptr) (s : Shape)
    → ((a : Ptr) → count a s ≤ 1)
    → Below t.nodes up s
    → Below (set_parent_of t (root_of s) v).nodes v s
unfolding Below count
Below-set_parent_of t up v leaf once b = tt
Below-set_parent_of t up v (node c l p r) once b =
    let n = record (t.nodes p) { parent = v } in
    (
      update_self t.nodes p n ∙ ap (λ (m : RbNode). record m { parent = v }) b.0,
      Below-Agree t.nodes (update t.nodes p n) (some p) l
          (Agree-update t.nodes p n (λ a. count a l) (omega (arith, once p, hit_self p))) b.1,
      Below-Agree t.nodes (update t.nodes p n) (some p) r
          (Agree-update t.nodes p n (λ a. count a r) (omega (arith, once p, hit_self p))) b.2,
    )

pub child-cell :
    (d : Side) (c : Color) (up near far : Option Ptr)
    → (child d (cell d c up near far) ≡ near) × (child (flip d) (cell d c up near far) ≡ far)
child-cell left_side c up near far = (refl, refl)
child-cell right_side c up near far = (refl, refl)

pub with_child-cell :
    (d : Side) (c : Color) (up near far v : Option Ptr)
    → with_child d v (cell d c up near far) ≡ cell d c up v far
with_child-cell left_side c up near far v = refl
with_child-cell right_side c up near far v = refl

-- An address that does not stand in a tree is not its root.
pub same_ptr-root_of : (x : Ptr) (s : Shape) → count x s ≡ 0 → same_ptr (some x) (root_of s) ≡ false
unfolding count
same_ptr-root_of x leaf z = refl
same_ptr-root_of x (node c l p r) z = ground arith

-- The source's test of one link finds the side on which `x` stands.
pub replace_child_lem :
    (d d' : Side) (c : Color) (t : RbTree) (x p : Ptr) (up v : Option Ptr) (far : Shape)
    → t.nodes p ≡ cell d' c up (some x) (root_of far)
    → count x far ≡ 0
    → replace_child d t x (some p) v ≡ set_child d' t p v
unfolding replace_child
replace_child_lem left_side left_side c t x p up v far e z =
    rw (ap (child left_side) e, ==_refl x) refl
replace_child_lem left_side right_side c t x p up v far e z =
    rw (ap (child left_side) e, same_ptr-root_of x far z) refl
replace_child_lem right_side left_side c t x p up v far e z =
    rw (ap (child right_side) e, same_ptr-root_of x far z) refl
replace_child_lem right_side right_side c t x p up v far e z =
    rw (ap (child right_side) e, ==_refl x) refl

-- The way to a link, after the link is written.
pub Along-set_child :
    (t : RbTree) (d : Side) (c : Color) (p : Ptr) (far : Shape) (ctx : List Step) (x v : Option Ptr)
    → ((a : Ptr) → count_along a (step d c p far ∷ ctx) ≤ 1)
    → Along t.nodes t.root (step d c p far ∷ ctx) x
    → Along (set_child d t p v).nodes t.root (step d c p far ∷ ctx) v
unfolding Along count_along
Along-set_child t d c p far ctx x v once b =
    let n = with_child d v (t.nodes p) in
    (
      update_self t.nodes p n
          ∙ ap (with_child d v) b.0
          ∙ with_child-cell d c (top ctx) x (root_of far) v,
      Below-Agree t.nodes (update t.nodes p n) (some p) far
          (Agree-update t.nodes p n (λ a. count a far) (omega (arith, once p, hit_self p))) b.1,
      Along-Agree t.nodes (update t.nodes p n) t.root ctx (some p)
          (Agree-update t.nodes p n (λ a. count_along a ctx) (omega (arith, once p, hit_self p)))
          b.2,
    )

pub Along-replace_child :
    (d : Side) (t : RbTree) (x : Ptr) (ctx : List Step) (v : Option Ptr)
    → ((a : Ptr) → count_along a ctx ≤ 1)
    → count_along x ctx ≡ 0
    → Along t.nodes t.root ctx (some x)
    → Along (replace_child d t x (top ctx) v).nodes (replace_child d t x (top ctx) v).root ctx v
unfolding Along count_along replace_child
Along-replace_child d t x [] v once z b = refl
Along-replace_child d t x (step d' c p far ∷ ctx) v once z b =
    subst (λ (t1 : RbTree). Along t1.nodes t1.root (step d' c p far ∷ ctx) v)
      (sym (replace_child_lem d d' c t x p (top ctx) v far b.0 (omega arith)))
      (Along-set_child t d' c p far ctx (some x) v once b)
