-- ===== src/KTimer/Queue.antt =====
-- `KTimerQueue` of src/ktimer.rs: active and inactive timers in two trees with cached minima.
pub mod Inv
pub mod Members
pub mod Least
pub mod Ends
pub mod Rekey
use rtsched.Base.{
  ℕ, Ptr, Option, none, some, Bool, true, false, List, [], ◌∷◌, ◌||◌, Ordering, ◌+◌, has, update,
  if◌then◌else◌, same_ptr, length, saturating_add64,
}
use rtsched.Tree
use rtsched.Tree.Order.{cmp_key}
use rtsched.KTimer.{KTimerEntity, set_expire_at}

-- The links of all timer entities and the entities themselves.
pub record KTimerQueue : Type 0 where
  pub entities : Ptr → KTimerEntity
  pub active_tree : List Ptr
  pub inactive_tree : List Ptr
  pub first_active : Option Ptr
  pub first_inactive : Option Ptr
  pub now_ticks : ℕ

-- `KTimerQueue::new` keeps the entities, which the queue does not own.
abbrev pub new : (Ptr → KTimerEntity) → KTimerQueue
new entities = record {
  entities = entities;
  active_tree = [];
  inactive_tree = [];
  first_active = none;
  first_inactive = none;
  now_ticks = 0;
}

abbrev pub cmp : KTimerQueue → Ptr → Ptr → Ordering
cmp q = cmp_key (λ p. (q.entities p).expire_at)

abbrev pub set_entity : KTimerQueue → Ptr → KTimerEntity → KTimerQueue
set_entity q p e = record q { entities = update q.entities p e }

abbrev pub is_less : Ordering → Bool
is_less Ordering.lt = true
is_less Ordering.eq = false
is_less Ordering.gt = false

unfoldable pub earlier_of : KTimerQueue → Option Ptr → Option Ptr → Option Ptr
earlier_of q none b = b
earlier_of q (some a) none = some a
earlier_of q (some a) (some b) = if is_less (cmp q a b) then some a else some b

abbrev pub len : KTimerQueue → ℕ
len q = length q.active_tree + length q.inactive_tree

unfoldable pub first : KTimerQueue → Option Ptr
unfolding earlier_of
first q = earlier_of q q.first_active q.first_inactive

unfoldable pub next : KTimerQueue → Ptr → Option Ptr
unfolding earlier_of Tree.upper_bound
next q e =
    if (q.entities e).active
    then earlier_of q (Tree.next e q.active_tree) (Tree.upper_bound (cmp q) e q.inactive_tree)
    else earlier_of q (Tree.next e q.inactive_tree) (Tree.upper_bound (cmp q) e q.active_tree)

unfoldable pub contains : KTimerQueue → Ptr → Bool
contains q e = has e q.active_tree || has e q.inactive_tree

abbrev pub advance_time : KTimerQueue → ℕ → KTimerQueue
advance_time q elapsed = record q { now_ticks = saturating_add64 q.now_ticks elapsed }

-- The cached minimum after an insertion.
abbrev pub new_left_most : KTimerQueue → Ptr → Option Ptr → Option Ptr
new_left_most q e none = some e
new_left_most q e (some l) = if is_less (cmp q e l) then some e else some l

unfoldable pub insert : KTimerQueue → Ptr → Bool → KTimerQueue
unfolding Tree.insert
insert q e true = record q {
  entities = update q.entities e (record (q.entities e) { active = true });
  active_tree = Tree.insert (cmp q) e q.active_tree;
  first_active = new_left_most q e q.first_active;
}
insert q e false = record q {
  entities = update q.entities e (record (q.entities e) { active = false });
  inactive_tree = Tree.insert (cmp q) e q.inactive_tree;
  first_inactive = new_left_most q e q.first_inactive;
}

unfoldable pub enqueue_active : KTimerQueue → Ptr → KTimerQueue
unfolding insert
enqueue_active q e = insert q e true

unfoldable pub enqueue_inactive : KTimerQueue → Ptr → KTimerQueue
unfolding insert
enqueue_inactive q e = insert q e false

-- The cached minimum after a removal: the successor, read before the links change.
abbrev pub left_most_without : Ptr → List Ptr → Option Ptr → Option Ptr
left_most_without e tree left_most =
    if same_ptr (some e) left_most then Tree.next e tree else left_most

-- Callers pass a timer that is linked, and no null pointer.
unfoldable pub remove : KTimerQueue → Ptr → KTimerQueue
unfolding Tree.remove
remove q e =
    if (q.entities e).active
    then record q {
      active_tree = Tree.remove e q.active_tree;
      first_active = left_most_without e q.active_tree q.first_active;
    }
    else record q {
      inactive_tree = Tree.remove e q.inactive_tree;
      first_inactive = left_most_without e q.inactive_tree q.first_inactive;
    }

unfoldable pub dequeue : KTimerQueue → Ptr → KTimerQueue
unfolding remove
dequeue q e = let r = remove q e in set_entity r e (record (r.entities e) { active = false })
