-- ===== src/RbTree.antt =====
-- The links of src/rbtree.rs: the nodes of a tree stand in a store, by address. `left_rotate` and
-- `right_rotate`, and the two arms of each fixup loop, mirror one another: a side tells which is meant.
pub mod Shape
pub mod Frames
pub mod Pieces
pub mod Rotate
pub mod Balance
pub mod Recolor
pub mod InsertFixup
pub mod InsertRound
pub mod InsertLoop
pub mod Slot
pub mod Inserted
pub mod Refines
pub mod Locate
pub mod Reads
pub mod ReadsOf
pub mod UpperBound
pub mod RemoveSteps
pub mod RemoveTurns
pub mod RemoveRound
pub mod RemoveLoop
pub mod RemoveFixup
pub mod Transplant
pub mod Least
pub mod Detach
pub mod Unlink
pub mod Successor
pub mod Gap
pub mod Removed
pub mod Insert
pub mod Remove
use rtsched.Base.{
  ℕ, suc, zero, ◌+◌, ◌-◌, Ptr, Ordering, Bool, true, false, not, ◌&&◌, Option, none, some,
  if◌then◌else◌, same_ptr, update, ◌==◌,
}
use rtsched.Kernel.{Result, done, stopped, ◌>>=◌, null_pointer, out_of_fuel, equal_keys}

pub data Color : Type 0 where
  red black : Color

pub record RbNode : Type 0 where
  pub parent : Option Ptr
  pub left : Option Ptr
  pub right : Option Ptr
  pub color : Color

abbrev pub new_node : RbNode
new_node = record { parent = none; left = none; right = none; color = red }

pub record RbTree : Type 0 where
  pub nodes : Ptr → RbNode
  pub root : Option Ptr
  pub len : ℕ

-- `RBTree::new`: the nodes belong to the entities.
abbrev pub new : (Ptr → RbNode) → RbTree
new nodes = record { nodes = nodes; root = none; len = 0 }

pub data Side : Type 0 where
  left_side right_side : Side

abbrev pub flip : Side → Side
flip left_side = right_side
flip right_side = left_side

abbrev pub child : Side → RbNode → Option Ptr
child left_side n = n.left
child right_side n = n.right

abbrev pub with_child : Side → Option Ptr → RbNode → RbNode
with_child left_side v n = record n { left = v }
with_child right_side v n = record n { right = v }

abbrev pub set_node : RbTree → Ptr → RbNode → RbTree
set_node t p n = record t { nodes = update t.nodes p n }

abbrev pub set_child : Side → RbTree → Ptr → Option Ptr → RbTree
set_child d t p v = set_node t p (with_child d v (t.nodes p))

abbrev pub set_parent : RbTree → Ptr → Option Ptr → RbTree
set_parent t p v = set_node t p (record (t.nodes p) { parent = v })

abbrev pub set_color : RbTree → Ptr → Color → RbTree
set_color t p c = set_node t p (record (t.nodes p) { color = c })

-- A write through a pointer that may be null, which then is skipped.
abbrev pub set_parent_of : RbTree → Option Ptr → Option Ptr → RbTree
set_parent_of t none v = t
set_parent_of t (some p) v = set_parent t p v

abbrev pub set_color_of : RbTree → Option Ptr → Color → RbTree
set_color_of t none c = t
set_color_of t (some p) c = set_color t p c

abbrev pub color_of : RbTree → Option Ptr → Color
color_of t none = black
color_of t (some p) = (t.nodes p).color

-- `parent_of`, `left_of` and `right_of`: null for a null node.
abbrev pub parent_of : RbTree → Option Ptr → Option Ptr
parent_of t none = none
parent_of t (some p) = (t.nodes p).parent

abbrev pub child_of : Side → RbTree → Option Ptr → Option Ptr
child_of d t none = none
child_of d t (some p) = child d (t.nodes p)

abbrev pub is_red : Color → Bool
is_red red = true
is_red black = false

-- The loops take a number of rounds.
unfoldable pub descend_to : Side → ℕ → RbTree → Option Ptr → Result (Option Ptr)
descend_to d zero t p = stopped out_of_fuel
descend_to d (suc n) t none = done none
descend_to d (suc n) t (some p) = elim (child d (t.nodes p)) [
  | none ↦ done (some p)
  | some c ↦ descend_to d n t (some c)
]

unfoldable pub minimum : RbTree → Option Ptr → Result (Option Ptr)
unfolding descend_to
minimum t p = descend_to left_side (suc t.len) t p

unfoldable pub maximum : RbTree → Option Ptr → Result (Option Ptr)
unfolding descend_to
maximum t p = descend_to right_side (suc t.len) t p

unfoldable pub first : RbTree → Result (Option Ptr)
unfolding minimum
first t = minimum t t.root

unfoldable pub last : RbTree → Result (Option Ptr)
unfolding maximum
last t = maximum t t.root

-- The climb of `next`, while the node is its parent's right child.
unfoldable pub climb : ℕ → RbTree → Ptr → Option Ptr → Result (Option Ptr)
climb zero t node parent = stopped out_of_fuel
climb (suc n) t node none = done none
climb (suc n) t node (some p) = elim (same_ptr (some node) (t.nodes p).right) [
  | true ↦ climb n t p (t.nodes p).parent
  | false ↦ done (some p)
]

-- Callers pass no null pointer.
unfoldable pub next : RbTree → Ptr → Result (Option Ptr)
unfolding minimum climb
next t node = elim (t.nodes node).right [
  | some r ↦ minimum t (some r)
  | none ↦ climb (suc t.len) t node (t.nodes node).parent
]

-- The walk of `contains`.
unfoldable pub walk : ℕ → RbTree → Option Ptr → Ptr → Result Bool
walk zero t current e = stopped out_of_fuel
walk (suc n) t none e = done false
walk (suc n) t (some c) e = elim (c == e) [
  | true ↦ done true
  | false ↦ next t c >>= λ c'. walk n t c' e
]

unfoldable pub contains : RbTree → Ptr → Result Bool
contains t e = first t >>= λ c. walk (suc t.len) t c e

-- The pointer from above to `x`, the root or a child link, now leads to `v`. The link on side `d` is
-- tried first.
unfoldable pub replace_child : Side → RbTree → Ptr → Option Ptr → Option Ptr → RbTree
replace_child d t x none v = record t { root = v }
replace_child d t x (some p) v =
    if same_ptr (some x) (child d (t.nodes p)) then set_child d t p v else set_child (flip d) t p v

-- The writes of a rotation with `y` the child of `x` that comes up.
abbrev pub rotated : Side → RbTree → Ptr → Ptr → RbTree
rotated d t x y =
    let t1 = set_child (flip d) t x (child d (t.nodes y)) in
    let t2 = set_parent_of t1 (child d (t1.nodes y)) (some x) in
    let t3 = set_parent t2 y (t2.nodes x).parent in
    let t4 = replace_child d t3 x (t3.nodes x).parent (some y) in
    let t5 = set_child d t4 y (some x) in set_parent t5 x (some y)

unfoldable pub rotate : Side → RbTree → Ptr → Result RbTree
rotate d t x = elim (child (flip d) (t.nodes x)) [
  | none ↦ stopped null_pointer
  | some y ↦ done (rotated d t x y)
]

abbrev pub left_rotate : RbTree → Ptr → Result RbTree
left_rotate t x = rotate left_side t x

abbrev pub right_rotate : RbTree → Ptr → Result RbTree
right_rotate t y = rotate right_side t y

-- A dereference: a null pointer stops the model.
abbrev pub deref : Option Ptr → Result Ptr
deref none = stopped null_pointer
deref (some p) = done p
