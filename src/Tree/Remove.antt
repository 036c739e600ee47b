-- ===== src/Tree/Remove.antt =====
-- `RBTree::remove`: the entity leaves, and the others keep their order.
use rtsched.Base.{
  Ptr, Ordering, ◌≡◌, refl, List, [], ◌∷◌, false, arith, All, has, ◌∉◌, ◌==◌, All-mem, ◌∈◌, inl,
  inr, length, ◌+◌, Bool-cases,
}
use rtsched.Tree.{remove}
use rtsched.Tree.Order.{IsStrict, IsSorted}

pub All-remove {κ} : (P : Ptr → Type κ) (e : Ptr) (xs : List Ptr) → All P xs → All P (remove e xs)
unfolding remove
All-remove P e [] h = tt
All-remove P e (x ∷ xs) h = ground (arith, All-remove P e xs h.1)

pub remove-of_not_mem : (e : Ptr) (xs : List Ptr) → e ∉ xs → remove e xs ≡ xs
unfolding remove
remove-of_not_mem e [] out = refl
remove-of_not_mem e (x ∷ xs) out = ground (arith, remove-of_not_mem e xs)

pub has-remove_ne : (a e : Ptr) (xs : List Ptr) → (a == e) ≡ false → has a (remove e xs) ≡ has a xs
unfolding remove
has-remove_ne a e [] ne = refl
has-remove_ne a e (x ∷ xs) ne = ground (arith, has-remove_ne a e xs)

pub length-remove : (e : Ptr) (xs : List Ptr) → e ∈ xs → length (remove e xs) + 1 ≡ length xs
unfolding remove
length-remove e [] m = absurd (cc)
length-remove e (x ∷ xs) m = ground (arith, length-remove e xs)

module _ {cmp : Ptr → Ptr → Ordering} (strict : IsStrict cmp) where
  pub remove-IsSorted : (e : Ptr) (xs : List Ptr) → IsSorted cmp xs → IsSorted cmp (remove e xs)
  unfolding remove
  remove-IsSorted e [] s = tt
  remove-IsSorted e (x ∷ xs) s =
      ground (arith, remove-IsSorted e xs s.1, All-remove (λ y. cmp x y ≡ Ordering.lt) e xs s.0)

  -- No entity is linked twice.
  pub head-not-mem : (x : Ptr) (xs : List Ptr) → IsSorted cmp (x ∷ xs) → x ∉ xs
  head-not-mem x xs s = elim (Bool-cases (has x xs)) [
    | inr out ↦ out
    | inl m ↦
        absurd (ground (arith, All-mem (λ y. cmp x y ≡ Ordering.lt) x xs s.0 m, strict.irrefl x))
  ]

  pub not-mem-remove : (e : Ptr) (xs : List Ptr) → IsSorted cmp xs → e ∉ remove e xs
  unfolding remove
  not-mem-remove e [] s = refl
  not-mem-remove e (x ∷ xs) s = ground (arith, head-not-mem x xs s, not-mem-remove e xs s.1)
