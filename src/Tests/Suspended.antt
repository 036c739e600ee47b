-- ===== src/Tests/Suspended.antt =====
-- The theorems on the links of the suspended list, at small lists.
use rtsched.Base.{Ptr, none, some, [], ◌∷◌, refl, ◌≡◌, ◌==◌, if◌then◌else◌, arith}
use rtsched.Tree
use rtsched.WaitQueue.Suspended.{
  SuspendedWaitList, SuspendedLinks, new, null_links, push_back, remove,
}
use rtsched.WaitQueue.Suspended.Refines.{Lists, push_back-Lists}
use rtsched.WaitQueue.Suspended.Unlink.{remove-Lists}

abbrev empty : SuspendedWaitList
empty = new (λ _. null_links)

empty-Lists : Lists empty []
empty-Lists = record { head = refl; tail = refl; chain = tt; distinct = tt; detached = λ a o. refl }

push_back-Lists_example : Lists (push_back empty 7) (7 ∷ [])
push_back-Lists_example = push_back-Lists empty 7 [] refl empty-Lists

-- Three entities, linked in the order 7, 4, 9.
abbrev three_links : Ptr → SuspendedLinks
three_links p =
    if p == 7
    then record { suspended_prev = none; suspended_next = some 4 }
    else if p == 4
    then record { suspended_prev = some 7; suspended_next = some 9 }
    else if p == 9
    then record { suspended_prev = some 4; suspended_next = none }
    else null_links

abbrev three : SuspendedWaitList
three = record { links = three_links; head = some 7; tail = some 9 }

three-Lists : Lists three (7 ∷ 4 ∷ 9 ∷ [])
three-Lists = record {
  head = refl;
  tail = refl;
  chain = (refl, (refl, (refl, tt)));
  distinct = (refl, (refl, (refl, tt)));
  detached = λ a o. ground (arith, o);
}

remove-Lists_example : Lists (remove three 4) (7 ∷ 9 ∷ [])
unfolding Tree.remove
remove-Lists_example = remove-Lists three 4 (7 ∷ 4 ∷ 9 ∷ []) refl three-Lists

-- The neighbours are joined.
joined : (remove three 4).links 7 ≡ record { suspended_prev = none; suspended_next = some 9 }
unfolding remove
joined = refl
