-- ===== src/WaitQueue/Suspended/Chain.antt =====
-- Runs of linked entities between two given neighbours.
use rtsched.Base.{
  Ptr, Option, some, List, [], ◌∷◌, ◌++◌, ◌≡◌, ◌≢◌, refl, ap, ◌∙◌, subst, ◌∈◌, IsDistinct, arith,
  update, update_self, update_ne,
}
use rtsched.WaitQueue.Suspended.{SuspendedLinks}

-- The first of a run, or what comes after it.
abbrev pub lead : List Ptr → Option Ptr → Option Ptr
lead [] after = after
lead (x ∷ xs) after = some x

-- The last of a run, or what comes before it.
abbrev pub trail : Option Ptr → List Ptr → Option Ptr
trail before [] = before
trail before (x ∷ xs) = trail (some x) xs

abbrev pub Chain : (Ptr → SuspendedLinks) → Option Ptr → List Ptr → Option Ptr → Type 0
Chain links before [] after = Unit {0}
Chain links before (x ∷ xs) after =
    (links x ≡ record { suspended_prev = before; suspended_next = lead xs after })
    × Chain links (some x) xs after

pub Chain-frame :
    (links links' : Ptr → SuspendedLinks) (before after : Option Ptr) (xs : List Ptr)
    → ((a : Ptr) → a ∈ xs → links' a ≡ links a)
    → Chain links before xs after
    → Chain links' before xs after
Chain-frame links links' before after [] same h = tt
Chain-frame links links' before after (x ∷ xs) same h = (
  same x (ground arith) ∙ h.0,
  Chain-frame links links' (some x) after xs (λ a m. same a (ground arith)) h.1,
)

pub mem-trail : (x p : Ptr) (xs : List Ptr) → trail (some x) xs ≡ some p → p ∈ (x ∷ xs)
mem-trail x p [] e = ground arith
mem-trail x p (y ∷ ys) e = ground (arith, mem-trail y p ys e)

-- A new neighbour after the last one.
pub Chain-set_next :
    (links : Ptr → SuspendedLinks) (before after after' : Option Ptr) (x p : Ptr) (xs : List Ptr)
    → trail (some x) xs ≡ some p
    → IsDistinct (x ∷ xs)
    → Chain links before (x ∷ xs) after
    → Chain (update links p (record (links p) { suspended_next = after' })) before (x ∷ xs) after'
Chain-set_next links before after after' x p [] e d h =
    let same : x ≡ p = ground arith in
    let keep : SuspendedLinks → SuspendedLinks = λ n. record n { suspended_next = after' } in
    (
      subst
          (λ q.
            update links q (keep (links q)) x
            ≡ keep (record { suspended_prev = before; suspended_next = after }))
          same (update_self links x (keep (links x)) ∙ ap keep h.0),
      tt,
    )
Chain-set_next links before after after' x p (y ∷ ys) e d h =
    let rest = Chain-set_next links (some x) after after' y p ys e d.1 h.1 in
    let other : x ≢ p = λ i. absurd (ground (arith, i, d.0, mem-trail y p ys e)) in
    (update_ne links p _ x other ∙ h.0, rest)

-- A new neighbour before the first one.
pub Chain-set_prev :
    (links : Ptr → SuspendedLinks) (before before' after : Option Ptr) (x : Ptr) (xs : List Ptr)
    → IsDistinct (x ∷ xs)
    → Chain links before (x ∷ xs) after
    → Chain (update links x (record (links x) { suspended_prev = before' })) before' (x ∷ xs) after
Chain-set_prev links before before' after x xs d h =
    let keep : SuspendedLinks → SuspendedLinks = λ n. record n { suspended_prev = before' } in
    (
      update_self links x _ ∙ ap keep h.0,
      Chain-frame links (update links x (record (links x) { suspended_prev = before' })) (some x)
          after xs (λ a m. update_ne links x _ a (ground (arith, d.0))) h.1,
    )

pub lead-append :
    (xs ys : List Ptr) (after : Option Ptr) → lead (xs ++ ys) after ≡ lead xs (lead ys after)
lead-append [] ys after = refl
lead-append (x ∷ xs) ys after = refl

pub trail-append :
    (before : Option Ptr) (xs ys : List Ptr) → trail before (xs ++ ys) ≡ trail (trail before xs) ys
trail-append before [] ys = refl
trail-append before (x ∷ xs) ys = trail-append (some x) xs ys

pub trail-some : (x : Ptr) (xs : List Ptr) → (t : Ptr) × (trail (some x) xs ≡ some t)
trail-some x [] = (x, refl)
trail-some x (y ∷ ys) = trail-some y ys

pub Chain-append :
    (links : Ptr → SuspendedLinks) (before after : Option Ptr) (xs ys : List Ptr)
    → Chain links before xs (lead ys after)
    → Chain links (trail before xs) ys after
    → Chain links before (xs ++ ys) after
Chain-append links before after [] ys h g = g
Chain-append links before after (x ∷ xs) ys h g =
    (rw (lead-append xs ys after) h.0, Chain-append links (some x) after xs ys h.1 g)

pub Chain-split :
    (links : Ptr → SuspendedLinks) (before after : Option Ptr) (xs ys : List Ptr)
    → Chain links before (xs ++ ys) after
    → Chain links before xs (lead ys after) × Chain links (trail before xs) ys after
Chain-split links before after [] ys h = (tt, h)
Chain-split links before after (x ∷ xs) ys h =
    let rest = Chain-split links (some x) after xs ys h.1 in
    ((rw (← lead-append xs ys after) h.0, rest.0), rest.1)
