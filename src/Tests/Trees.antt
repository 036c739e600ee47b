-- ===== src/Tests/Trees.antt =====
-- The theorems on the links of the red-black tree at small trees, ordered by address.
use rtsched.Base.{
  ℕ, zero, ◌==◌, if◌then◌else◌, Ptr, none, some, List, [], ◌∷◌, ◌≡◌, refl, arith, suc, Ordering,
}
use rtsched.Kernel.{Result, done, Returns, ◌>>=◌}
use rtsched.RbTree.{
  RbNode, RbTree, red, black, new, new_node, first, next, rotate, replace_child, minimum,
  descend_to,
}
use rtsched.RbTree.Insert.{insert, descend, insert_fixup, upper_bound}
use rtsched.RbTree.Remove.{remove, remove_fixup, pop_first}
use rtsched.RbTree.Shape.{leaf, node, in_order, Below, Along, count, count_along}
use rtsched.RbTree.Balance.{RedBlack, Holds}
use rtsched.RbTree.Refines.{insert-Holds}
use rtsched.RbTree.Removed.{remove-Holds, pop_first-Holds}
use rtsched.RbTree.ReadsOf.{next-Holds}
use rtsched.RbTree.UpperBound.{upper_bound-Holds}
use rtsched.Tree.Order.{cmp_key, cmp_key-IsStrict, IsSorted}
use rtsched.Tree

abbrev by_address : Ptr → Ptr → Ordering
by_address = cmp_key (λ _. 0)

abbrev insert_all : List Ptr → RbTree → Result RbTree
insert_all [] t = done t
insert_all (x ∷ xs) t = insert by_address t x >>= λ t1. insert_all xs t1

abbrev drain : ℕ → RbTree → Result (List Ptr)
drain zero t = done []
drain (suc n) t = pop_first t >>= λ (t1, p). elim p [
  | none ↦ done []
  | some e ↦ drain n t1 >>= λ es. done (e ∷ es)
]

-- Seven insertions, the removal of an inner node, and the minimum taken out until the tree is empty.
drained :
    (insert_all (4 ∷ 2 ∷ 7 ∷ 1 ∷ 6 ∷ 5 ∷ 3 ∷ []) (new (λ _. new_node)) >>= λ t.
    remove t 4 >>= λ t1. drain 9 t1)
    ≡ done (1 ∷ 2 ∷ 3 ∷ 5 ∷ 6 ∷ 7 ∷ [])
unfolding insert remove pop_first descend insert_fixup remove_fixup rotate replace_child first
    minimum descend_to
drained = refl

-- The tree of 1, 2 and 3, with red leaves.
abbrev three_nodes : Ptr → RbNode
three_nodes p =
    if p == 2
    then record { parent = none; left = some 1; right = some 3; color = black }
    else record { parent = some 2; left = none; right = none; color = red }

abbrev three : RbTree
three = record { nodes = three_nodes; root = some 2; len = 3 }

three-Holds : Holds three (1 ∷ 2 ∷ 3 ∷ [])
unfolding in_order Below Along count count_along RedBlack
three-Holds = record {
  linked = record {
    shape = node black (node red leaf 1 leaf) 2 (node red leaf 3 leaf);
    height = 1;
    at = record {
      along = refl;
      below = (refl, (refl, tt, tt), (refl, tt, tt));
      once = λ a. ground arith;
    };
    balanced = ((refl, refl, refl, refl), (refl, refl, refl, refl));
    root_black = refl;
    order = refl;
  };
  len = refl;
}

three-IsSorted : IsSorted by_address (1 ∷ 2 ∷ 3 ∷ [])
three-IsSorted = ((refl, (refl, tt)), ((refl, tt), (tt, tt)))

insert-Holds_example :
    Returns (λ t'. Holds t' (Tree.insert by_address 4 (1 ∷ 2 ∷ 3 ∷ []))) (insert by_address three 4)
insert-Holds_example =
    insert-Holds (cmp_key-IsStrict (λ _. 0)) three (1 ∷ 2 ∷ 3 ∷ []) 4 three-Holds three-IsSorted
      refl

next-Holds_example : next three 1 ≡ done (some 2)
next-Holds_example = next-Holds three (1 ∷ 2 ∷ 3 ∷ []) 1 three-Holds refl

upper_bound-Holds_example :
    upper_bound by_address three 2 ≡ done (Tree.upper_bound by_address 2 (1 ∷ 2 ∷ 3 ∷ []))
upper_bound-Holds_example =
    upper_bound-Holds (cmp_key-IsStrict (λ _. 0)) three (1 ∷ 2 ∷ 3 ∷ []) 2 three-Holds
      three-IsSorted

remove-Holds_example :
    Returns
      (λ t'. Holds t' (Tree.remove 2 (1 ∷ 2 ∷ 3 ∷ [])) × (t'.nodes 2 ≡ new_node))
      (remove three 2)
remove-Holds_example = remove-Holds three (1 ∷ 2 ∷ 3 ∷ []) 2 three-Holds refl

pop_first-Holds_example : Returns (λ r. (r.1 ≡ some 1) × Holds r.0 (2 ∷ 3 ∷ [])) (pop_first three)
pop_first-Holds_example = pop_first-Holds three (1 ∷ 2 ∷ 3 ∷ []) three-Holds
