-- ===== src/RbTree/Refines.antt =====
-- `insert` of src/rbtree.rs refines the insertion of the ascending sequence, which its clients use.
use rtsched.Base.{
  ℕ, suc, ◌+◌, ◌≤◌, ◌<◌, Ptr, Ordering, Option, none, some, List, [], ◌∷◌, ◌≡◌, ◌≢◌, inl, inr, ◌∙◌,
  ap, sym, refl, subst, arith, length, ◌∉◌, update, update_self, update_ne,
}
use rtsched.Kernel.{done, Returns, Returns->>=, ◌>>=◌}
use rtsched.RbTree.{
  RbNode, RbTree, Color, red, Side, left_side, right_side, set_node, set_child, set_parent,
  new_node,
}
use rtsched.RbTree.Insert.{descend, attach, insert, insert_fixup}
use rtsched.RbTree.Shape.{
  Shape, leaf, node, Step, step, root_of, top, cell, plug, in_order, Below, Along, At, count,
  count_along, hit,
}
use rtsched.RbTree.Frames.{Below-Agree, Along-Agree, Agree-update, Along-set_child}
use rtsched.RbTree.Balance.{RedBlack, Fits, Linked, Holds}
use rtsched.RbTree.InsertLoop.{fixup_from}
use rtsched.RbTree.Slot.{slot, plug-slot, At-slot, count_along-slot, length-slot, Fits-slot}
use rtsched.RbTree.Inserted.{count-in_order, in_order-graft, descend-slot, Steered, Steered-slot}
use rtsched.Tree.Insert.{Ordering-cases, length-insert}
use rtsched.Tree.Order.{IsStrict, IsSorted}
use rtsched.Tree

hit_once : (a e : Ptr) (n : ℕ) → n ≤ 1 → (a ≡ e → n ≡ 0) → n + (hit a e + 0 + 0) ≤ 1
hit_once a e n h z = ground arith

-- A write to a node that is not in the tree.
pub At-set_node :
    (t : RbTree) (e : Ptr) (n : RbNode) (ctx : List Step) (s : Shape)
    → count_along e ctx + count e s ≡ 0
    → At t ctx s
    → At (set_node t e n) ctx s
At-set_node t e n ctx s z v = record {
  along =
      Along-Agree t.nodes (update t.nodes e n) t.root ctx (root_of s)
        (Agree-update t.nodes e n (λ a. count_along a ctx) (omega arith)) v.along;
  below =
      Below-Agree t.nodes (update t.nodes e n) (top ctx) s
        (Agree-update t.nodes e n (λ a. count a s) (omega arith)) v.below;
  once = v.once;
}

attach_apart :
    (e p : Ptr) (d : Side) (c : Color) (far : Shape) (ctx : List Step)
    → count_along e (step d c p far ∷ ctx) ≡ 0
    → e ≢ p
unfolding count_along
attach_apart e p d c far ctx z = ground arith

attach_step :
    (t : RbTree) (e : Ptr) (d : Side) (c : Color) (p : Ptr) (far : Shape) (ctx : List Step)
    → count_along e (step d c p far ∷ ctx) ≡ 0
    → t.nodes e ≡ cell left_side red (some p) none none
    → At t (step d c p far ∷ ctx) leaf
    → At (set_child d t p (some e)) (step d c p far ∷ ctx) (node red leaf e leaf)
unfolding Below count
attach_step t e d c p far ctx z at v =
    let apart : e ≢ p = attach_apart e p d c far ctx z in
    record {
      along = Along-set_child t d c p far ctx none (some e) (λ a. omega (arith, v.once a)) v.along;
      below = (update_ne t.nodes p _ e apart ∙ at, tt, tt);
      once = λ a.
          hit_once a e (count_along a (step d c p far ∷ ctx)) (omega (arith, v.once a))
            (λ i. ap (λ b. count_along b (step d c p far ∷ ctx)) i ∙ z);
    }

module _ (cmp : Ptr → Ptr → Ordering) where
  attach-step :
      (t : RbTree) (e p : Ptr) (d : Side) (c : Color) (far : Shape) (ctx : List Step)
      → Steered cmp e (step d c p far ∷ ctx)
      → attach cmp t e (some p) ≡ set_child d t p (some e)
  unfolding Steered
  attach-step t e p left_side c far ctx h = rw (h, attach) refl
  attach-step t e p right_side c far ctx h = rw (h, attach) refl

  -- The new node is put into its slot.
  attach_lem :
      (t : RbTree) (e : Ptr) (ctx : List Step)
      → count_along e ctx ≡ 0
      → t.nodes e ≡ new_node
      → Steered cmp e ctx
      → At t ctx leaf
      → At (attach cmp (set_parent t e (top ctx)) e (top ctx)) ctx (node red leaf e leaf)
  unfolding Below Along count count_along
  attach_lem t e [] z at h v = record {
    along = refl;
    below = (update_self t.nodes e _ ∙ ap (λ (m : RbNode). record m { parent = none }) at, tt, tt);
    once = λ a. hit_once a e 0 (omega arith) (λ i. refl);
  }
  attach_lem t e (step d c p far ∷ ctx) z at h v =
      let t1 = set_parent t e (some p) in
      subst (λ t2. At t2 (step d c p far ∷ ctx) (node red leaf e leaf))
        (sym (attach-step t1 e p d c far ctx h))
        (attach_step t1 e d c p far ctx z
          (update_self t.nodes e _ ∙ ap (λ (m : RbNode). record m { parent = some p }) at)
          (At-set_node t e _ (step d c p far ∷ ctx) leaf (omega arith) v))

  len-attach : (t : RbTree) (e : Ptr) (up : Option Ptr) → (attach cmp t e up).len ≡ t.len
  len-attach t e none = refl
  len-attach t e (some p) = elim (Ordering-cases (cmp e p)) [
    | inl i ↦ rw (i, attach) refl
    | inr (inl i) ↦ rw (i, attach) refl
    | inr (inr i) ↦ rw (i, attach) refl
  ]

count_along-nil : (a : Ptr) → count_along a [] ≡ 0
unfolding count_along
count_along-nil a = refl

insert-found :
    (cmp : Ptr → Ptr → Ordering) (t : RbTree) (e : Ptr) (parent : Option Ptr)
    → descend cmp (suc t.len) (set_node t e new_node) e none t.root ≡ done parent
    → insert cmp t e ≡ (
        insert_fixup
          (suc (suc t.len))
          (attach cmp (set_parent (set_node t e new_node) e parent) e parent)
          e
        >>= λ t4. done (record t4 { len = suc t4.len }))
unfolding insert
insert-found cmp t e parent i =
    ap
      (λ r. r >>= λ up.
        insert_fixup (suc (suc t.len)) (attach cmp (set_parent (set_node t e new_node) e up) e up) e
        >>= λ t4. done (record t4 { len = suc t4.len }))
      i

-- The length is written last.
pub Linked-len :
    (t : RbTree) (xs : List Ptr) (n : ℕ) → Linked t xs → Linked (record t { len = n }) xs
Linked-len t xs n l = record {
  shape = l.shape;
  height = l.height;
  at = record { along = l.at.along; below = l.at.below; once = l.at.once };
  balanced = l.balanced;
  root_black = l.root_black;
  order = l.order;
}

-- `insert` of a detached entity returns, and what the tree holds then is the sequence with the entity
-- inserted: where the comparison is strict, the tree holds an ascending sequence, and the entity is not
-- in it. A tree holds a sequence when its links, parent links and root are those of a red-black tree
-- with a black root and this in-order sequence, and its length is the sequence's.
pub insert-Holds :
    {cmp : Ptr → Ptr → Ordering}
    → IsStrict cmp
    → (t : RbTree) (xs : List Ptr) (e : Ptr) → Holds t xs
    → IsSorted cmp xs
    → e ∉ xs
    → Returns (λ t'. Holds t' (Tree.insert cmp e xs)) (insert cmp t e)
unfolding Along Steered Fits RedBlack plug
insert-Holds {cmp} strict t xs e h sorted out =
    let w = h.linked in
    let z : count e w.shape ≡ 0 = count-in_order e w.shape (rw w.order out) in
    let t1 = set_node t e new_node in
    let v1 = At-set_node t e new_node [] w.shape (omega (arith, z, count_along-nil e)) w.at in
    let ctx = slot cmp e w.shape [] in
    let v2 = At-slot cmp e t1 w.shape [] v1 in
    let size : length (in_order w.shape) ≡ t.len = ap length w.order ∙ sym h.len in
    let apart : count_along e ctx ≡ 0 =
      omega (arith, z, count_along-slot cmp e e w.shape [], count_along-nil e) in
    let found =
      ap (descend cmp (suc t.len) t1 e none) v1.along
      ∙ descend-slot strict e (suc t.len) t1 w.shape [] v1.below z (omega (arith, size)) in
    let t3 = attach cmp (set_parent t1 e (top ctx)) e (top ctx) in
    let v3 =
      attach_lem cmp t1 e ctx apart (update_self t.nodes e new_node)
        (Steered-slot strict e w.shape [] z tt) v2 in
    let order : in_order (plug ctx (node red leaf e leaf)) ≡ Tree.insert cmp e xs =
      ap in_order (plug-slot cmp e w.shape [])
      ∙ in_order-graft strict e w.shape z (rw w.order sorted)
      ∙ ap (Tree.insert cmp e) w.order in
    let fits =
      Fits-slot cmp e w.height w.shape [] w.balanced
        (subst (λ c. Fits w.height c []) (sym w.root_black) tt) in
    let size' : length ctx < suc (suc t.len) = omega (arith, length-slot cmp e w.shape [], size) in
    let fixed =
      fixup_from (suc (suc t.len)) t3 e (Tree.insert cmp e xs) ctx (node red leaf e leaf) 0 refl
        refl (refl, refl, refl, refl) fits v3 order size' in
    subst (Returns (λ t'. Holds t' (Tree.insert cmp e xs)))
      (sym (insert-found cmp t e (top ctx) found))
      (Returns->>= (λ t4. Linked t4 (Tree.insert cmp e xs) × (t4.len ≡ t3.len))
        (λ t'. Holds t' (Tree.insert cmp e xs)) (insert_fixup (suc (suc t.len)) t3 e)
        (λ t4. done (record t4 { len = suc t4.len })) fixed
        (λ t4 (l, len). record {
          linked = Linked-len t4 (Tree.insert cmp e xs) (suc t4.len) l;
          len = omega (
            arith,
            len,
            len-attach cmp (set_parent t1 e (top ctx)) e (top ctx),
            length-insert cmp e xs,
            h.len,
          );
        }))
