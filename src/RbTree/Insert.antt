-- ===== src/RbTree/Insert.antt =====
-- The writes of src/rbtree.rs that link an entity: `insert` and `insert_fixup`. Debug assertions are
-- left out.
use rtsched.Base.{
  ℕ, suc, zero, Ptr, Ordering, Option, none, some, true, false, if◌then◌else◌, same_ptr,
}
use rtsched.Kernel.{Result, done, stopped, ◌>>=◌, out_of_fuel, equal_keys}
use rtsched.RbTree.{
  RbTree, red, black, Side, left_side, right_side, flip, child, set_node, set_child, set_parent,
  set_color, set_color_of, color_of, is_red, rotate, deref, new_node,
}

-- The side of a parent's links on which `e` stands; the source tests the left link.
abbrev pub side_of : RbTree → Ptr → Ptr → Side
side_of t parent e = if same_ptr (some e) (t.nodes parent).left then left_side else right_side

-- A node that was the inner child is rotated out; the node to go on with is given back.
abbrev pub rotate_inner : Side → RbTree → Ptr → Ptr → Result (RbTree × Ptr)
rotate_inner d t z parent = elim (same_ptr (some z) (child (flip d) (t.nodes parent))) [
  | true ↦ rotate d t parent >>= λ t1. done (t1, parent)
  | false ↦ done (t, z)
]

-- One round of the loop where the parent is on side `d` of the grandparent.
abbrev pub insert_round : Side → RbTree → Ptr → Ptr → Ptr → Result (RbTree × Ptr)
insert_round d t z parent grandparent =
    let uncle = child (flip d) (t.nodes grandparent) in
    elim (is_red (color_of t uncle)) [
      | true ↦
          let t1 = set_color t parent black in
          let t2 = set_color_of t1 uncle black in done (set_color t2 grandparent red, grandparent)
      | false ↦ rotate_inner d t z parent >>= λ (t1, z1). deref (t1.nodes z1).parent >>= λ p.
          deref (t1.nodes p).parent >>= λ g.
          rotate (flip d) (set_color (set_color t1 p black) g red) g >>= λ t2. done (t2, z1)
    ]

unfoldable pub insert_fixup : ℕ → RbTree → Ptr → Result RbTree
insert_fixup zero t z = stopped out_of_fuel
insert_fixup (suc n) t z = elim (is_red (color_of t (t.nodes z).parent)) [
  | false ↦ done (set_color_of t t.root black)
  | true ↦ deref (t.nodes z).parent >>= λ parent. deref (t.nodes parent).parent >>= λ grandparent.
      insert_round (side_of t grandparent parent) t z parent grandparent >>= λ (t1, z1).
      insert_fixup n t1 z1
]

module _ (cmp : Ptr → Ptr → Ordering) where
  -- The search for the parent of a new node: equal keys are unreachable in the source.
  unfoldable pub descend : ℕ → RbTree → Ptr → Option Ptr → Option Ptr → Result (Option Ptr)
  descend zero t e parent current = stopped out_of_fuel
  descend (suc n) t e parent none = done parent
  descend (suc n) t e parent (some c) = elim (cmp e c) [
    | Ordering.lt ↦ descend n t e (some c) (t.nodes c).left
    | Ordering.gt ↦ descend n t e (some c) (t.nodes c).right
    | Ordering.eq ↦ stopped equal_keys
  ]

  abbrev pub attach : RbTree → Ptr → Option Ptr → RbTree
  attach t e none = record t { root = some e }
  attach t e (some p) = elim (cmp e p) [
    | Ordering.lt ↦ set_child left_side t p (some e)
    | _ ↦ set_child right_side t p (some e)
  ]

  unfoldable pub insert : RbTree → Ptr → Result RbTree
  insert t e =
      let t1 = set_node t e new_node in
      descend (suc t1.len) t1 e none t1.root >>= λ parent.
      insert_fixup (suc (suc t1.len)) (attach (set_parent t1 e parent) e parent) e >>= λ t2.
      done (record t2 { len = suc t2.len })

  unfoldable pub bound_below : ℕ → RbTree → Ptr → Option Ptr → Option Ptr → Result (Option Ptr)
  bound_below zero t e candidate current = stopped out_of_fuel
  bound_below (suc n) t e candidate none = done candidate
  bound_below (suc n) t e candidate (some c) = elim (cmp e c) [
    | Ordering.lt ↦ bound_below n t e (some c) (t.nodes c).left
    | _ ↦ bound_below n t e candidate (t.nodes c).right
  ]

  unfoldable pub upper_bound : RbTree → Ptr → Result (Option Ptr)
  unfolding bound_below
  upper_bound t e = bound_below (suc t.len) t e none t.root
