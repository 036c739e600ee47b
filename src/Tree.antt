-- ===== src/Tree.antt =====
-- The contract of the intrusive index that src/rbtree.rs implements: what its operations do to the
-- sequence of entity addresses in ascending order. The order is the entity type's `cmp`.
-- Clients (run queue, wait queue, timer queue, waiter trees) are stated over this contract.
pub mod Order
pub mod Insert
pub mod Remove
pub mod Frame
pub mod First
use rtsched.Base.{Ptr, Ordering, List, [], ◌∷◌, Option, none, some, ◌==◌, if◌then◌else◌}

-- The tree-wide minimum and maximum.
abbrev pub first : List Ptr → Option Ptr
first [] = none
first (x ∷ xs) = some x

abbrev pub last : List Ptr → Option Ptr
last [] = none
last (x ∷ []) = some x
last (x ∷ y ∷ xs) = last (y ∷ xs)

-- The in-order successor of a linked entity.
abbrev pub next : Ptr → List Ptr → Option Ptr
next e [] = none
next e (x ∷ xs) = if e == x then first xs else next e xs

-- Unlinking is by address: it reads no ordering key. Callers pass a linked entity, as the
-- source requires: what it does to the links of another one is not modelled.
unfoldable pub remove : Ptr → List Ptr → List Ptr
remove e [] = []
remove e (x ∷ xs) = if e == x then xs else x ∷ remove e xs

module _ (cmp : Ptr → Ptr → Ordering) where
  unfoldable pub insert : Ptr → List Ptr → List Ptr
  insert e [] = e ∷ []
  insert e (x ∷ xs) = elim (cmp e x) [ Ordering.lt ↦ e ∷ x ∷ xs | _ ↦ x ∷ insert e xs ]

  -- The first entity ordered strictly after `e`, which need not be linked.
  unfoldable pub upper_bound : Ptr → List Ptr → Option Ptr
  upper_bound e [] = none
  upper_bound e (x ∷ xs) = elim (cmp e x) [ Ordering.lt ↦ some x | _ ↦ upper_bound e xs ]
