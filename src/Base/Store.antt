-- ===== src/Base/Store.antt =====
-- Pointers are addresses; a nullable pointer is an option; a store maps live addresses to structs.
use Prim.Native.Nat.{ℕ}
use mathlib.Core.Path.{◌≡◌}
use mathlib.Core.Logic.{◌≢◌}
use native.Mathlib.Omega.{arith}
use mathlib.Core.List.{List, [], ◌∷◌}
use rtsched.Base.Tests.{◌==◌, if◌then◌else◌}
use rtsched.Base.Lists.{All, ◌∉◌}

abbrev pub Ptr : Type 0
Ptr = ℕ

abbrev pub update {ℓ} : {A : Type ℓ} → (Ptr → A) → Ptr → A → Ptr → A
update f p v a = if a == p then v else f a

pub update_self {ℓ} : {A : Type ℓ} (f : Ptr → A) (p : Ptr) (v : A) → update f p v p ≡ v
update_self f p v = ground arith

pub update_ne {ℓ} :
    {A : Type ℓ} (f : Ptr → A) (p : Ptr) (v : A) (a : Ptr) → a ≢ p → update f p v a ≡ f a
update_ne f p v a h = ground arith

-- A write at an address outside the list changes nothing that a predicate says along the list.
pub All-update {ℓ κ} :
    {A : Type ℓ} (P : Ptr → A → Type κ) (f : Ptr → A) (p : Ptr) (v : A) (xs : List Ptr)
    → p ∉ xs
    → All (λ a. P a (f a)) xs
    → All (λ a. P a (update f p v a)) xs
All-update P f p v [] out h = tt
All-update P f p v (x ∷ xs) out h = (
  let other : x ≢ p = ground arith in rw (update_ne f p v x other) h.0,
  All-update P f p v xs (ground arith) h.1,
)
