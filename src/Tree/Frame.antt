-- ===== src/Tree/Frame.antt =====
-- An index reads keys from its entities: it stays in order while the linked entities keep theirs.
use rtsched.Base.{ℕ, Ptr, Ordering, ◌≡◌, List, [], ◌∷◌, All}
use rtsched.Tree.Order.{IsSorted, cmp_key}

abbrev pub SameKeys : (Ptr → ℕ) → (Ptr → ℕ) → List Ptr → Type 0
SameKeys key key' xs = All (λ a. key' a ≡ key a) xs

All-frame :
    (key key' : Ptr → ℕ) (x : Ptr) (xs : List Ptr)
    → key' x ≡ key x
    → SameKeys key key' xs
    → All (λ y. cmp_key key x y ≡ Ordering.lt) xs
    → All (λ y. cmp_key key' x y ≡ Ordering.lt) xs
All-frame key key' x [] e h s = tt
All-frame key key' x (y ∷ ys) e h s = (rw (e, h.0) s.0, All-frame key key' x ys e h.1 s.1)

pub IsSorted-frame :
    (key key' : Ptr → ℕ) (xs : List Ptr)
    → SameKeys key key' xs
    → IsSorted (cmp_key key) xs
    → IsSorted (cmp_key key') xs
IsSorted-frame key key' [] h s = tt
IsSorted-frame key key' (x ∷ xs) h s =
    (All-frame key key' x xs h.0 h.1 s.0, IsSorted-frame key key' xs h.1 s.1)
