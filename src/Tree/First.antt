-- ===== src/Tree/First.antt =====
-- The cached minimum of an index, and the minimum's place in the order.
use rtsched.Base.{
  Ptr, Ordering, ◌≡◌, ◌≢◌, refl, List, [], ◌∷◌, arith, All-mem, ◌∈◌, ◌∉◌, none, some, if◌then◌else◌,
  same_ptr,
}
use rtsched.Tree.{first, next, insert, remove}
use rtsched.Tree.Order.{IsSorted}

pub has-first : (xs : List Ptr) {a : Ptr} → first xs ≡ some a → a ∈ xs
has-first [] h = absurd (cc)
has-first (x ∷ xs) h = ground arith

pub first-none : (xs : List Ptr) (a : Ptr) → first xs ≡ none → a ∉ xs
first-none [] a h = refl
first-none (x ∷ xs) a h = absurd (cc)

module _ (cmp : Ptr → Ptr → Ordering) where
  -- The minimum after an insertion is the new entity, or the old minimum.
  pub first-insert :
      (e : Ptr) (xs : List Ptr)
      → first (insert cmp e xs) ≡ (elim (first xs) [
        | none ↦ some e
        | some l ↦ elim (cmp e l) [ Ordering.lt ↦ some e | _ ↦ some l ]
      ])
  unfolding insert
  first-insert e [] = refl
  first-insert e (x ∷ xs) = ground arith

  -- Every linked entity but the minimum comes after it.
  pub first-least :
      (xs : List Ptr) {a : Ptr} (b : Ptr)
      → IsSorted cmp xs
      → first xs ≡ some a
      → b ∈ xs
      → b ≢ a
      → cmp a b ≡ Ordering.lt
  first-least [] b s h m ne = absurd (cc)
  first-least (x ∷ xs) {a} b s h m ne =
      let same : x ≡ a = ground arith in
      rw (← same) (All-mem (λ y. cmp x y ≡ Ordering.lt) b xs s.0 (ground arith))

-- The minimum after a removal is the removed minimum's successor, or the old minimum.
pub first-remove :
    (e : Ptr) (xs : List Ptr)
    → first (remove e xs) ≡ (if same_ptr (some e) (first xs) then next e xs else first xs)
unfolding remove
first-remove e [] = refl
first-remove e (x ∷ xs) = ground arith
