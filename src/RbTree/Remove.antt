-- ===== src/RbTree/Remove.antt =====
-- The writes of src/rbtree.rs that unlink an entity: `transplant`, `remove`, `remove_fixup` and
-- `pop_first`.
use rtsched.Base.{
  ℕ, suc, zero, ◌-◌, Ptr, Bool, true, false, not, ◌&&◌, Option, none, some, same_ptr,
}
use rtsched.Kernel.{Result, done, stopped, ◌>>=◌, out_of_fuel}
use rtsched.RbTree.{
  RbTree, Color, red, black, Side, left_side, right_side, flip, child, child_of, set_node,
  set_child, set_parent, set_parent_of, set_color, set_color_of, color_of, is_red, replace_child,
  rotate, deref, minimum, first, new_node,
}

abbrev pub transplant : RbTree → Ptr → Option Ptr → RbTree
transplant t u v =
    let t1 = replace_child left_side t u (t.nodes u).parent v in
    set_parent_of t1 v (t1.nodes u).parent

-- A red sibling is coloured black and rotated above the parent. The sibling then is read again.
abbrev pub lower_red_sibling : Side → RbTree → Ptr → Result (RbTree × Option Ptr)
lower_red_sibling d t parent =
    let w = child (flip d) (t.nodes parent) in
    elim (is_red (color_of t w)) [
      | true ↦ rotate d (set_color (set_color_of t w black) parent red) parent >>= λ t1.
          done (t1, child (flip d) (t1.nodes parent))
      | false ↦ done (t, w)
    ]

-- A null sibling is not rotated.
abbrev pub rotate_of : Side → RbTree → Option Ptr → Result RbTree
rotate_of d t none = done t
rotate_of d t (some w) = rotate d (set_color t w red) w

-- The sibling's outer child is made red.
abbrev pub redden_outer : Side → RbTree → Ptr → Option Ptr → Result (RbTree × Option Ptr)
redden_outer d t parent w = elim (is_red (color_of t (child_of (flip d) t w))) [
  | true ↦ done (t, w)
  | false ↦ rotate_of (flip d) (set_color_of t (child_of d t w) black) w >>= λ t1.
      done (t1, child (flip d) (t1.nodes parent))
]

abbrev pub sibling_has_black_children : RbTree → Option Ptr → Bool
sibling_has_black_children t w =
    not (is_red (color_of t (child_of left_side t w)))
    && not (is_red (color_of t (child_of right_side t w)))

-- One round of the loop where `x` is on side `d` of its parent: the tree, the next `x` and its parent.
abbrev pub remove_round : Side → RbTree → Ptr → Result (RbTree × Option Ptr × Option Ptr)
remove_round d t parent = lower_red_sibling d t parent >>= λ (t1, w).
    elim (sibling_has_black_children t1 w) [
      | true ↦ let t2 = set_color_of t1 w red in done (t2, some parent, (t2.nodes parent).parent)
      | false ↦ redden_outer d t1 parent w >>= λ (t2, w2).
          let t3 = set_color_of t2 w2 (t2.nodes parent).color in
          let t4 = set_color t3 parent black in
          let t5 = set_color_of t4 (child_of (flip d) t4 w2) black in
          rotate d t5 parent >>= λ t6. done (t6, t6.root, none)
    ]

-- The source's test reads the left link, null for a null parent.
abbrev pub side_of_link : RbTree → Option Ptr → Option Ptr → Side
side_of_link t x parent = elim (same_ptr x (child_of left_side t parent)) [
  | true ↦ left_side
  | false ↦ right_side
]

-- With a null parent the source's loop does not end, and the model stops.
unfoldable pub remove_fixup : ℕ → RbTree → Option Ptr → Option Ptr → Result RbTree
remove_fixup zero t x parent = stopped out_of_fuel
remove_fixup (suc n) t x parent = elim (not (same_ptr x t.root) && not (is_red (color_of t x))) [
  | false ↦ done (set_color_of t x black)
  | true ↦ deref parent >>= λ p. remove_round (side_of_link t x parent) t p >>= λ (t1, x1, parent1).
      remove_fixup n t1 x1 parent1
]

-- The successor `y` of a node with two children is taken out of the right subtree.
abbrev pub detach_successor : RbTree → Ptr → Ptr → Result (RbTree × Option Ptr)
detach_successor t node y =
    let x = (t.nodes y).right in
    elim (same_ptr (some node) (t.nodes y).parent) [
      | true ↦ done (set_parent_of t x (some y), some y)
      | false ↦
          let t1 = transplant t y x in
          let t2 = set_child right_side t1 y (t1.nodes node).right in
          deref (t2.nodes y).right >>= λ r. done (set_parent t2 r (some y), (t.nodes y).parent)
    ]

-- What stands for `x`, its parent and the colour that is lost.
pub record Unlinked : Type 0 where
  pub tree : RbTree
  pub x : Option Ptr
  pub x_parent : Option Ptr
  pub lost_color : Color

abbrev pub replace_with_successor : RbTree → Ptr → Ptr → Result Unlinked
replace_with_successor t node y = detach_successor t node y >>= λ (t1, x_parent).
    let t2 = transplant t1 node (some y) in
    let t3 = set_child left_side t2 y (t2.nodes node).left in
    deref (t3.nodes y).left >>= λ l.
    let t4 = set_parent t3 l (some y) in
    done (record {
      tree = set_color t4 y (t4.nodes node).color;
      x = (t.nodes y).right;
      x_parent = x_parent;
      lost_color = (t.nodes y).color;
    })

abbrev pub unlink : RbTree → Ptr → Result Unlinked
unlink t node = elim (t.nodes node).left [
  | none ↦ done (record {
    tree = transplant t node (t.nodes node).right;
    x = (t.nodes node).right;
    x_parent = (t.nodes node).parent;
    lost_color = (t.nodes node).color;
  })
  | some l ↦ elim (t.nodes node).right [
    | none ↦ done (record {
      tree = transplant t node (some l);
      x = some l;
      x_parent = (t.nodes node).parent;
      lost_color = (t.nodes node).color;
    })
    | some r ↦ minimum t (some r) >>= λ y. deref y >>= λ y. replace_with_successor t node y
  ]
]

-- Callers pass no null pointer. The entity that is given back is the argument.
unfoldable pub remove : RbTree → Ptr → Result RbTree
unfolding minimum
remove t node = unlink t node >>= λ u.
    (elim (is_red u.lost_color) [
      | true ↦ done u.tree
      | false ↦ remove_fixup (suc (suc t.len)) u.tree u.x u.x_parent
    ])
    >>= λ t1. let t2 = set_node t1 node new_node in done (record t2 { len = t2.len - 1 })

unfoldable pub pop_first : RbTree → Result (RbTree × Option Ptr)
pop_first t = first t >>= λ e. elim e [
  | none ↦ done (t, none)
  | some p ↦ remove t p >>= λ t1. done (t1, some p)
]
