-- ===== src/RbTree/Gap.antt =====
-- The cases of `remove` in src/rbtree.rs, and the fixup of what they leave.
use rtsched.Base.{
  ℕ, suc, zero, ◌+◌, ◌≤◌, Ptr, true, false, Option, none, some, List, ◌++◌, ◌≡◌, ◌∙◌, ap, sym, refl,
  subst, arith, length, append-nil,
}
use rtsched.Kernel.{Result, done, Returns, ◌>>=◌}
use rtsched.RbTree.{RbNode, RbTree, Color, red, black, minimum, deref, is_red}
use rtsched.RbTree.Remove.{Unlinked, unlink, transplant, replace_with_successor, remove_fixup}
use rtsched.RbTree.Shape.{
  Shape, leaf, node, Step, root_of, top, plug, in_order, count, Below, At, At-plug,
}
use rtsched.RbTree.Balance.{shade, RedBlack, Fits, Fits-plug, blacken, Linked}
use rtsched.RbTree.Reads.{descend_to-first}
use rtsched.RbTree.Least.{in_order-without}
use rtsched.RbTree.Unlink.{Gap, Lost, Lost-right, Lost-left, around, lone_lem}
use rtsched.RbTree.Successor.{replace_with_successor_lem}
use rtsched.RbTree.Detach.{len-transplant}
use rtsched.RbTree.RemoveRound.{Ends, red-Ends, shade-plug, Fits-black}
use rtsched.RbTree.RemoveFixup.{Ends-remove_fixup, Losing-remove_fixup}
use rtsched.Tree

-- The cases, from the node that is read.
abbrev unlink_at : RbTree → Ptr → RbNode → Result Unlinked
unlink_at t e n = elim n.left [
  | none ↦ done (record {
    tree = transplant t e n.right;
    x = n.right;
    x_parent = n.parent;
    lost_color = n.color;
  })
  | some l ↦ elim n.right [
    | none ↦ done (record {
      tree = transplant t e (some l);
      x = some l;
      x_parent = n.parent;
      lost_color = n.color;
    })
    | some r ↦ minimum t (some r) >>= λ y. deref y >>= λ y. replace_with_successor t e y
  ]
]

leaf-count :
    (a : Ptr) (s : Shape)
    → (count a s ≤ count a leaf + count a s) × (count a s ≤ count a s + count a leaf)
leaf-count a s = (omega arith, omega arith)

in_order_leaf :
    (s : Shape)
    → (in_order s ≡ in_order leaf ++ in_order s) × (in_order s ≡ in_order s ++ in_order leaf)
unfolding in_order
in_order_leaf s = (refl, sym (append-nil (in_order s)))

pub unlink_lem :
    (t : RbTree) (e : Ptr) (k : ℕ) (c : Color) (l r : Shape) (ctx : List Step)
    → At t ctx (node c l e r)
    → RedBlack k (node c l e r)
    → Fits k c ctx
    → length (in_order r) ≤ t.len
    → Returns (λ u. Gap u (around ctx l r) × (u.tree.len ≡ t.len)) (unlink t e)
unfolding Below minimum
unlink_lem t e k c leaf r ctx v b f short =
    subst (Returns (λ u. Gap u (around ctx leaf r) × (u.tree.len ≡ t.len)))
      (sym (ap (unlink_at t e) v.below.0))
      (
        lone_lem t c e ctx k leaf r r (some e) v (λ a. (leaf-count a r).0) v.below.2
            (Lost-right k c leaf e r b) f (in_order_leaf r).0,
        len-transplant t e (root_of r),
      )
unlink_lem t e k c (node cl ll pl lr) leaf ctx v b f short =
    let l = node cl ll pl lr in
    subst (Returns (λ u. Gap u (around ctx l leaf) × (u.tree.len ≡ t.len)))
      (sym (ap (unlink_at t e) v.below.0))
      (
        lone_lem t c e ctx k l leaf l (some e) v (λ a. (leaf-count a l).1) v.below.1
            (Lost-left k c l e leaf b) f (in_order_leaf l).1,
        len-transplant t e (root_of l),
      )
unlink_lem t e k c (node cl ll pl lr) (node cr rl rp rr) ctx v b f short =
    let r = node cr rl rp rr in
    let found =
      descend_to-first (suc t.len) t (some e) r v.below.2 (omega (arith, short))
      ∙ ap (λ ys. done (Tree.first ys)) (in_order-without rl cr rp rr) in
    subst (Returns (λ u. Gap u (around ctx (node cl ll pl lr) r) × (u.tree.len ≡ t.len)))
      (sym (
        ap (unlink_at t e) v.below.0
        ∙ ap (λ x. x >>= λ y. deref y >>= λ y. replace_with_successor t e y) found))
      (replace_with_successor_lem t c e ctx k cl ll pl lr rl cr rp rr v b f)

RedBlack-redden : (n : ℕ) (s : Shape) → shade s ≡ red → RedBlack n s → RedBlack (suc n) (blacken s)
unfolding RedBlack
RedBlack-redden n leaf i b = ground arith
RedBlack-redden n (node red l p r) i b = (b.0, b.1)
RedBlack-redden n (node black l p r) i b = ground arith

-- What follows the cases.
abbrev pub mend : ℕ → Unlinked → Result RbTree
mend n u = elim (is_red u.lost_color) [
  | true ↦ done u.tree
  | false ↦ remove_fixup (suc n) u.tree u.x u.x_parent
]

-- A black node is gone: the loop starts at a red or at a black subtree.
mend_black_lem :
    (n : ℕ) (t : RbTree) (x parent : Option Ptr) (xs : List Ptr) (ctx : List Step) (s : Shape)
    (k : ℕ) (c : Color)
    → shade s ≡ c
    → root_of s ≡ x
    → parent ≡ top ctx
    → RedBlack k s
    → Fits (suc k) black ctx
    → At t ctx s
    → in_order (plug ctx s) ≡ xs
    → length ctx ≤ n
    → Returns (λ t'. Linked t' xs × (t'.len ≡ t.len)) (remove_fixup (suc n) t x parent)
mend_black_lem n t x parent xs ctx s k red i ix ip b f v o short =
    Ends-remove_fixup n t x parent xs
      (subst (λ y. Ends t y xs) ix (red-Ends t ctx s (suc k) xs i (RedBlack-redden k s i b) f o v))
mend_black_lem n t x parent xs ctx s k black i ix ip b f v o short =
    Losing-remove_fixup (suc n) t x parent xs ctx s k ix ip i b f v o (omega arith)

mend_on_lem :
    (n : ℕ) (t : RbTree) (x parent : Option Ptr) (xs : List Ptr) (ctx : List Step) (s : Shape)
    (k : ℕ) (c : Color)
    → root_of s ≡ x
    → parent ≡ top ctx
    → Lost k c s
    → Fits k c ctx
    → At t ctx s
    → in_order (plug ctx s) ≡ xs
    → length ctx ≤ n
    → Returns
        (λ t'. Linked t' xs × (t'.len ≡ t.len))
        (mend n (record { tree = t; x = x; x_parent = parent; lost_color = c }))
unfolding Lost
mend_on_lem n t x parent xs ctx s k red ix ip b f v o short =
    let fits = subst (λ c. Fits k c ctx) (sym b.1) (Fits-black k ctx f) in
    (
      record {
        shape = plug ctx s;
        height = (Fits-plug k ctx s b.0 fits).0;
        at = At-plug t ctx s v;
        balanced = (Fits-plug k ctx s b.0 fits).1;
        root_black = shade-plug k ctx s fits;
        order = o;
      },
      refl,
    )
mend_on_lem n t x parent xs ctx s zero black ix ip b f v o short = elim b [ ]
mend_on_lem n t x parent xs ctx s (suc k) black ix ip b f v o short =
    mend_black_lem n t x parent xs ctx s k (shade s) refl ix ip b f v o short

pub mend_lem :
    (n : ℕ) (u : Unlinked) (xs : List Ptr) (g : Gap u xs)
    → length g.ctx ≤ n
    → Returns (λ t'. Linked t' xs × (t'.len ≡ u.tree.len)) (mend n u)
mend_lem n u xs g short =
    mend_on_lem n u.tree u.x u.x_parent xs g.ctx g.focus g.height u.lost_color g.at_x g.at_parent
      g.lost g.fits g.at g.order short
