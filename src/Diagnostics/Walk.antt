-- ===== src/Diagnostics/Walk.antt =====
-- Walks along a sequence.
use rtsched.Base.{
  IsDistinct, ℕ, zero, suc, ◌≤◌, Ptr, Ordering, ◌≡◌, refl, ◌∙◌, List, [], ◌∷◌, ◌++◌, map, length,
  Option, none, some, ◌∈◌, ◌==◌, arith, false,
}
use rtsched.Tree
use rtsched.Tree.Order.{IsStrict, IsSorted}
use rtsched.Tree.Remove.{head-not-mem}
use rtsched.Kernel.{done}
use rtsched.WaitQueue.{or_head}
use rtsched.Diagnostics.{walk}

-- `next` leads along the members of the sequence, and from the last one to `end`.
abbrev pub Leads : (Ptr → Option Ptr) → List Ptr → Option Ptr → Type 0
Leads next [] end = Unit {0}
Leads next (x ∷ []) end = next x ≡ end
Leads next (x ∷ y ∷ xs) end = (next x ≡ some y) × Leads next (y ∷ xs) end

-- With a round for each member, a walk to the end of the sequence visits each in turn.
pub walk_lem :
    {A : Type 0} (f : Ptr → A) (next : Ptr → Option Ptr) (n : ℕ) (xs : List Ptr)
    → length xs ≤ n
    → Leads next xs none
    → walk f next n (Tree.first xs) ≡ done (map f xs)
unfolding walk
walk_lem f next n [] l h = refl
walk_lem f next zero (x ∷ xs) l h = absurd (omega arith)
walk_lem f next (suc n) (x ∷ []) l h = rw h refl
walk_lem f next (suc n) (x ∷ y ∷ xs) l h =
    rw h.0 (rw (walk_lem f next n (y ∷ xs) (omega arith) h.1) refl)

pub IsSorted-IsDistinct :
    {cmp : Ptr → Ptr → Ordering} → IsStrict cmp → (xs : List Ptr) → IsSorted cmp xs → IsDistinct xs
IsSorted-IsDistinct strict [] s = tt
IsSorted-IsDistinct strict (x ∷ xs) s =
    (head-not-mem strict x xs s, IsSorted-IsDistinct strict xs s.1)

-- The successors in a sequence without repetition, and then the head of another one.
pub Leads-next :
    (next : Ptr → Option Ptr) (xs ys : List Ptr)
    → IsDistinct xs
    → ((e : Ptr) → e ∈ xs → next e ≡ or_head (Tree.next e xs) ys)
    → Leads next xs (Tree.first ys)
Leads-next next [] ys d h = tt
Leads-next next (x ∷ []) ys d h = h x (ground arith) ∙ ground arith
Leads-next next (x ∷ z ∷ xs) ys d h = (
  h x (ground arith) ∙ ground arith,
  Leads-next next (z ∷ xs) ys d.1 λ e m.
      let other : (e == x) ≡ false = ground (arith, d.0) in
      h e (ground arith) ∙ rw (other, Tree.next) refl,
)

pub Leads-append :
    (next : Ptr → Option Ptr) (xs ys : List Ptr)
    → Leads next xs (Tree.first ys)
    → Leads next ys none
    → Leads next (xs ++ ys) none
Leads-append next [] ys h g = g
Leads-append next (x ∷ []) [] h g = h
Leads-append next (x ∷ []) (y ∷ ys) h g = (h, g)
Leads-append next (x ∷ z ∷ xs) ys h g = (h.0, Leads-append next (z ∷ xs) ys h.1 g)

pub or_head-nil : (o : Option Ptr) → o ≡ or_head o []
or_head-nil none = refl
or_head-nil (some e) = refl

pub first-append : (xs ys : List Ptr) → Tree.first (xs ++ ys) ≡ or_head (Tree.first xs) ys
first-append [] ys = refl
first-append (x ∷ xs) ys = refl
