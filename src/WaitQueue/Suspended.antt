-- ===== src/WaitQueue/Suspended.antt =====
-- `SuspendedWaitList` of src/waitq.rs: the doubly linked list of indefinite waits, on its pointers.
-- The debug assertions, which say that links and ends are as expected, are left out.
pub mod Chain
pub mod Refines
pub mod Unlink
use rtsched.Base.{Ptr, Option, none, some, update}

-- `suspended_prev` and `suspended_next` of a `WaitEntity`.
pub record SuspendedLinks : Type 0 where
  pub suspended_prev : Option Ptr
  pub suspended_next : Option Ptr

pub record SuspendedWaitList : Type 0 where
  pub links : Ptr → SuspendedLinks
  pub head : Option Ptr
  pub tail : Option Ptr

abbrev pub null_links : SuspendedLinks
null_links = record { suspended_prev = none; suspended_next = none }

-- `new`, over the entities that the list does not own.
abbrev pub new : (Ptr → SuspendedLinks) → SuspendedWaitList
new links = record { links = links; head = none; tail = none }

abbrev pub set_prev : SuspendedWaitList → Ptr → Option Ptr → SuspendedWaitList
set_prev l p v = record l { links = update l.links p (record (l.links p) { suspended_prev = v }) }

abbrev pub set_next : SuspendedWaitList → Ptr → Option Ptr → SuspendedWaitList
set_next l p v = record l { links = update l.links p (record (l.links p) { suspended_next = v }) }

abbrev pub link_last : SuspendedWaitList → Ptr → Option Ptr → SuspendedWaitList
link_last l e none = record l { head = some e }
link_last l e (some tail) = set_next l tail (some e)

unfoldable pub push_back : SuspendedWaitList → Ptr → SuspendedWaitList
push_back l e = let l1 = link_last (set_prev l e l.tail) e l.tail in record l1 { tail = some e }

-- The neighbours, or the ends of the list, are joined before the entity's own links are cleared.
abbrev pub join_next : SuspendedWaitList → (prev next : Option Ptr) → SuspendedWaitList
join_next l none next = record l { head = next }
join_next l (some p) next = set_next l p next

abbrev pub join_prev : SuspendedWaitList → (prev next : Option Ptr) → SuspendedWaitList
join_prev l prev none = record l { tail = prev }
join_prev l prev (some n) = set_prev l n prev

unfoldable pub remove : SuspendedWaitList → Ptr → SuspendedWaitList
remove l e =
    let prev = (l.links e).suspended_prev in
    let next = (l.links e).suspended_next in
    let l2 = join_prev (join_next l prev next) prev next in
    record l2 { links = update l2.links e null_links }
