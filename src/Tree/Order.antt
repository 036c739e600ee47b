-- ===== src/Tree/Order.antt =====
-- Ascending sequences under a strict total comparison, as `RBTreeNode::cmp` promises.
use rtsched.Base.{ℕ, Ptr, Ordering, compare, ◌≡◌, List, [], ◌∷◌, arith, All}

-- "Equal keys must be resolved with a strict tie-breaker so tree ordering is total."
pub record IsStrict (cmp : Ptr → Ptr → Ordering) : Type 0 where
  pub irrefl : (a : Ptr) → cmp a a ≡ Ordering.eq
  pub eq_of_cmp : (a b : Ptr) → cmp a b ≡ Ordering.eq → a ≡ b
  pub lt_of_gt : (a b : Ptr) → cmp a b ≡ Ordering.gt → cmp b a ≡ Ordering.lt
  pub gt_of_lt : (a b : Ptr) → cmp a b ≡ Ordering.lt → cmp b a ≡ Ordering.gt
  pub lt_trans :
      (a b c : Ptr) → cmp a b ≡ Ordering.lt → cmp b c ≡ Ordering.lt → cmp a c ≡ Ordering.lt

-- `match first.cmp(..) { Equal => second.cmp(..), other => other }`
abbrev pub then_cmp : Ordering → Ordering → Ordering
then_cmp Ordering.eq o = o
then_cmp o _ = o

-- A numeric key with the entity's address as tie-breaker.
abbrev pub cmp_key : (Ptr → ℕ) → Ptr → Ptr → Ordering
cmp_key key a b = then_cmp (compare (key a) (key b)) (compare a b)

pub cmp_key-IsStrict : (key : Ptr → ℕ) → IsStrict (cmp_key key)
cmp_key-IsStrict key = record {
  irrefl = λ a. ground arith;
  eq_of_cmp = λ a b. ground arith;
  lt_of_gt = λ a b. ground arith;
  gt_of_lt = λ a b. ground arith;
  lt_trans = λ a b c. ground arith;
}

module _ (cmp : Ptr → Ptr → Ordering) where
  abbrev pub IsSorted : List Ptr → Type 0
  IsSorted [] = Unit {0}
  IsSorted (x ∷ xs) = All (λ y. cmp x y ≡ Ordering.lt) xs × IsSorted xs
