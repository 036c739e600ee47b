-- ===== src/RbTree/Removed.antt =====
-- `remove` and `pop_first` of src/rbtree.rs on the links do what the ascending sequence does.
use rtsched.Base.{
  suc, ◌+◌, ◌-◌, ◌≤◌, Ptr, Option, none, some, List, [], ◌∷◌, ◌++◌, ◌≡◌, ◌∙◌, ap, sym, refl, subst,
  arith, length, length-append, ◌∈◌, ◌∉◌, ==_refl, append_assoc, update_self,
}
use rtsched.Kernel.{Result, done, Returns, Returns->>=, ◌>>=◌}
use rtsched.RbTree.{RbTree, Color, left_side, right_side, set_node, new_node, first}
use rtsched.RbTree.Remove.{unlink, remove, pop_first}
use rtsched.RbTree.Shape.{
  Shape, node, Step, step, plug, in_order, count, count_along, hit, hit_self,
}
use rtsched.RbTree.Balance.{Linked, Holds}
use rtsched.RbTree.Locate.{before, after, in_order-around, Holds-locate}
use rtsched.RbTree.Inserted.{has-append, count-in_order}
use rtsched.RbTree.ReadsOf.{has-in_order, has-before, length-plug, first-last-Holds}
use rtsched.RbTree.Refines.{At-set_node, Linked-len}
use rtsched.RbTree.Unlink.{Gap, around, in_order-node}
use rtsched.RbTree.Gap.{unlink_lem, mend, mend_lem}
use rtsched.Tree.Remove.{length-remove}
use rtsched.Tree

has-after : (a : Ptr) (ctx : List Step) → count_along a ctx ≡ 0 → a ∉ after ctx
unfolding count_along after
has-after a [] z = refl
has-after a (step left_side c p far ∷ ctx) z =
    ground (arith, has-append a (in_order far) (after ctx), has-after a ctx, has-in_order a far)
has-after a (step right_side c p far ∷ ctx) z = has-after a ctx (omega arith)

remove-append :
    (e : Ptr) (xs ys : List Ptr) → e ∉ xs → Tree.remove e (xs ++ ys) ≡ xs ++ Tree.remove e ys
unfolding Tree.remove
remove-append e [] ys out = refl
remove-append e (x ∷ xs) ys out = ground (arith, remove-append e xs ys)

remove_self : (e : Ptr) (ys : List Ptr) → Tree.remove e (e ∷ ys) ≡ ys
unfolding Tree.remove
remove_self e ys = ground (arith, ==_refl e)

remove-around :
    (e : Ptr) (c : Color) (l r : Shape) (ctx : List Step)
    → count_along e ctx ≡ 0
    → count e l ≡ 0
    → Tree.remove e (in_order (plug ctx (node c l e r))) ≡ around ctx l r
remove-around e c l r ctx z z' =
    ap (Tree.remove e) (
      in_order-around ctx (node c l e r)
      ∙ ap (λ ys. before ctx ++ (ys ++ after ctx)) (in_order-node c l e r)
      ∙ ap (λ ys. before ctx ++ ys) (append_assoc (in_order l) (e ∷ in_order r) (after ctx)))
    ∙ remove-append e (before ctx) (in_order l ++ (e ∷ (in_order r ++ after ctx)))
        (has-before e ctx z)
    ∙ ap (λ ys. before ctx ++ ys)
        (remove-append e (in_order l) (e ∷ (in_order r ++ after ctx)) (has-in_order e l z')
          ∙ ap (λ ys. in_order l ++ ys) (remove_self e (in_order r ++ after ctx))
          ∙ sym (append_assoc (in_order l) (in_order r) (after ctx)))

has-around :
    (e : Ptr) (l r : Shape) (ctx : List Step)
    → count_along e ctx ≡ 0
    → count e l + count e r ≡ 0
    → e ∉ around ctx l r
has-around e l r ctx z z' =
    let hl = has-in_order e l (omega arith) in
    let hr = has-in_order e r (omega arith) in
    ground (
      arith,
      has-append e (before ctx) ((in_order l ++ in_order r) ++ after ctx),
      has-append e (in_order l ++ in_order r) (after ctx),
      has-append e (in_order l) (in_order r),
      has-before e ctx z,
      has-after e ctx z,
      hl,
      hr,
    )

-- The entity's links are reset, and the length is written.
abbrev cleared : RbTree → Ptr → RbTree
cleared t e = let t2 = set_node t e new_node in record t2 { len = t2.len - 1 }

remove-mend :
    (t : RbTree) (e : Ptr)
    → remove t e ≡ (unlink t e >>= λ u. mend (suc t.len) u >>= λ t1. done (cleared t1 e))
unfolding remove
remove-mend t e = refl

cleared-Holds :
    (t : RbTree) (e : Ptr) (xs : List Ptr)
    → e ∉ xs
    → t.len ≡ suc (length xs)
    → Linked t xs
    → Holds (cleared t e) xs × ((cleared t e).nodes e ≡ new_node)
unfolding count_along
cleared-Holds t e xs out len w =
    let z = count-in_order e w.shape (rw w.order out) in
    (
      record {
        linked = Linked-len (set_node t e new_node) xs (t.len - 1) (record {
          shape = w.shape;
          height = w.height;
          at = At-set_node t e new_node [] w.shape (omega arith) w.at;
          balanced = w.balanced;
          root_black = w.root_black;
          order = w.order;
        });
        len = omega arith;
      },
      update_self t.nodes e new_node,
    )

-- `remove` of a linked entity returns: the tree then holds the sequence without the entity, and the
-- entity's own links are null and its colour is red. No ordering key is read.
pub remove-Holds :
    (t : RbTree) (xs : List Ptr) (e : Ptr)
    → Holds t xs
    → e ∈ xs
    → Returns (λ t'. Holds t' (Tree.remove e xs) × (t'.nodes e ≡ new_node)) (remove t e)
unfolding count
remove-Holds t xs e h m =
    let w = Holds-locate t e xs h m in
    let l = w.left in
    let r = w.right in
    let one : count_along e w.ctx + (hit e e + count e l + count e r) ≤ 1 = w.at.once e in
    let z : count_along e w.ctx ≡ 0 = omega (arith, hit_self e, one) in
    let z' : count e l + count e r ≡ 0 = omega (arith, hit_self e, one) in
    let rest = around w.ctx l r in
    let same : Tree.remove e xs ≡ rest =
      ap (Tree.remove e) (sym w.order) ∙ remove-around e w.color l r w.ctx z (omega arith) in
    let out = has-around e l r w.ctx z z' in
    let size : length rest + 1 ≡ t.len =
      omega (arith, length-remove e xs m, ap length same, h.len) in
    let whole = length-plug w.ctx (node w.color l e r) in
    let small : length (in_order r) ≤ t.len = omega (
      arith,
      whole,
      ap length w.order,
      h.len,
      ap length (in_order-node w.color l e r),
      length-append (in_order l) (e ∷ in_order r),
    ) in
    let P = λ (t' : RbTree). Holds t' (Tree.remove e xs) × (t'.nodes e ≡ new_node) in
    subst (Returns P) (sym (remove-mend t e)) (
      Returns->>= (λ u. Gap u rest × (u.tree.len ≡ t.len)) P (unlink t e)
        (λ u. mend (suc t.len) u >>= λ t1. done (cleared t1 e))
        (unlink_lem t e w.height w.color l r w.ctx w.at w.balanced w.fits small)
        (λ u (g, len).
          Returns->>= (λ t1. Linked t1 rest × (t1.len ≡ u.tree.len)) P (mend (suc t.len) u)
            (λ t1. done (cleared t1 e))
            (mend_lem (suc t.len) u rest g
              (omega (arith, length-plug g.ctx g.focus, ap length g.order, size)))
            (λ t1 (w1, len1).
              subst (λ ys. Holds (cleared t1 e) ys × ((cleared t1 e).nodes e ≡ new_node)) (sym same)
                (cleared-Holds t1 e rest out (omega (arith, len1, len, size)) w1))))

abbrev pop_on : RbTree → Option Ptr → Result (RbTree × Option Ptr)
pop_on t e = elim e [ none ↦ done (t, none) | some p ↦ remove t p >>= λ t1. done (t1, some p) ]

pop_first-on : (t : RbTree) (e : Option Ptr) → first t ≡ done e → pop_first t ≡ pop_on t e
unfolding pop_first
pop_first-on t e i = ap (λ r. r >>= pop_on t) i

abbrev pub others : List Ptr → List Ptr
others [] = []
others (x ∷ xs) = xs

-- `pop_first` returns the first entity, and the tree then holds the others; of a tree that holds no
-- entity it returns null, and the tree is as before.
pub pop_first-Holds :
    (t : RbTree) (xs : List Ptr)
    → Holds t xs
    → Returns (λ r. (r.1 ≡ Tree.first xs) × Holds r.0 (others xs)) (pop_first t)
pop_first-Holds t [] h =
    subst (Returns (λ r. (r.1 ≡ none) × Holds r.0 []))
      (sym (pop_first-on t none (first-last-Holds t [] h).0)) (refl, h)
pop_first-Holds t (x ∷ xs) h =
    let P = λ (r : RbTree × Option Ptr). (r.1 ≡ some x) × Holds r.0 xs in
    subst (Returns P) (sym (pop_first-on t (some x) (first-last-Holds t (x ∷ xs) h).0)) (
      Returns->>= (λ t1. Holds t1 (Tree.remove x (x ∷ xs)) × (t1.nodes x ≡ new_node)) P (remove t x)
        (λ t1. done (t1, some x)) (remove-Holds t (x ∷ xs) x h (ground (arith, ==_refl x)))
        (λ t1 (w, _). (refl, subst (Holds t1) (remove_self x xs) w)))
