-- ===== src/KTimer/Queue/Inv.antt =====
-- The invariant of `KTimerQueue`, and that each operation keeps it.
use rtsched.Base.{
  ℕ, Ptr, ◌≡◌, refl, sym, List, [], ◌∷◌, Bool, true, false, arith, All, ◌∉◌, update, All-update,
  Bool-cases, inl, inr,
}
use rtsched.Tree
use rtsched.Tree.Order.{IsSorted, cmp_key-IsStrict}
use rtsched.Tree.Insert.{insert-IsSorted, All-insert}
use rtsched.Tree.Remove.{remove-IsSorted, All-remove}
use rtsched.Tree.Frame.{IsSorted-frame}
use rtsched.Tree.First.{first-insert, first-remove}
use rtsched.KTimer.{KTimerEntity}
use rtsched.KTimer.Queue.{KTimerQueue, cmp, set_entity, insert, remove, new, advance_time}

-- Both trees ascend by expiration and address, the flag of a timer says which tree links it, and
-- the caches hold the two minima.
pub record IsValid (q : KTimerQueue) : Type 0 where
  pub active_sorted : IsSorted (cmp q) q.active_tree
  pub inactive_sorted : IsSorted (cmp q) q.inactive_tree
  pub active_flags : All (λ a. (q.entities a).active ≡ true) q.active_tree
  pub inactive_flags : All (λ a. (q.entities a).active ≡ false) q.inactive_tree
  pub active_cached : q.first_active ≡ Tree.first q.active_tree
  pub inactive_cached : q.first_inactive ≡ Tree.first q.inactive_tree

abbrev pub IsDetached : KTimerQueue → Ptr → Type 0
IsDetached q e = (e ∉ q.active_tree) × (e ∉ q.inactive_tree)

expire_key : KTimerQueue → Ptr → ℕ
expire_key q p = (q.entities p).expire_at

-- The order survives a write to an entity that is not linked, and one that keeps the expiration.
module _ (q : KTimerQueue) (p : Ptr) (e : KTimerEntity) (xs : List Ptr) where
  IsSorted-update_detached : p ∉ xs → IsSorted (cmp q) xs → IsSorted (cmp (set_entity q p e)) xs
  IsSorted-update_detached out s =
      IsSorted-frame _ _ xs
        (All-update (λ a x. x.expire_at ≡ (q.entities a).expire_at) q.entities p e xs out (same xs))
        s
    where
      same : (ys : List Ptr) → All (λ a. (q.entities a).expire_at ≡ (q.entities a).expire_at) ys
      same [] = tt
      same (y ∷ ys) = (refl, same ys)

  IsSorted-update_same :
      e.expire_at ≡ (q.entities p).expire_at
      → IsSorted (cmp q) xs
      → IsSorted (cmp (set_entity q p e)) xs
  IsSorted-update_same keep s = IsSorted-frame _ _ xs (same xs) s
    where
      same :
          (ys : List Ptr)
          → All (λ a. (update q.entities p e a).expire_at ≡ (q.entities a).expire_at) ys
      same [] = tt
      same (y ∷ ys) = (ground arith, same ys)

pub set_entity-IsValid :
    (q : KTimerQueue) (p : Ptr) (e : KTimerEntity)
    → IsDetached q p
    → IsValid q
    → IsValid (set_entity q p e)
set_entity-IsValid q p e d v = record {
  active_sorted = IsSorted-update_detached q p e q.active_tree d.0 v.active_sorted;
  inactive_sorted = IsSorted-update_detached q p e q.inactive_tree d.1 v.inactive_sorted;
  active_flags = All-update (λ _ x. x.active ≡ true) q.entities p e _ d.0 v.active_flags;
  inactive_flags = All-update (λ _ x. x.active ≡ false) q.entities p e _ d.1 v.inactive_flags;
  active_cached = v.active_cached;
  inactive_cached = v.inactive_cached;
}

pub new-IsValid : (entities : Ptr → KTimerEntity) → IsValid (new entities)
new-IsValid entities = record {
  active_sorted = tt;
  inactive_sorted = tt;
  active_flags = tt;
  inactive_flags = tt;
  active_cached = refl;
  inactive_cached = refl;
}

pub advance_time-IsValid : (q : KTimerQueue) (n : ℕ) → IsValid q → IsValid (advance_time q n)
advance_time-IsValid q n v = record {
  active_sorted = v.active_sorted;
  inactive_sorted = v.inactive_sorted;
  active_flags = v.active_flags;
  inactive_flags = v.inactive_flags;
  active_cached = v.active_cached;
  inactive_cached = v.inactive_cached;
}

pub insert-IsValid :
    (q : KTimerQueue) (p : Ptr) (active : Bool)
    → IsDetached q p
    → IsValid q
    → IsValid (insert q p active)
unfolding insert
insert-IsValid q p true d v = record {
  active_sorted =
      IsSorted-update_same q p _ _ refl
        (insert-IsSorted (cmp_key-IsStrict _) p q.active_tree d.0 v.active_sorted);
  inactive_sorted = IsSorted-update_same q p _ _ refl v.inactive_sorted;
  active_flags =
      All-insert (cmp q) _ p q.active_tree (ground arith)
        (All-update (λ _ x. x.active ≡ true) q.entities p _ _ d.0 v.active_flags);
  inactive_flags = All-update (λ _ x. x.active ≡ false) q.entities p _ _ d.1 v.inactive_flags;
  active_cached = ground (arith, v.active_cached, first-insert (cmp q) p q.active_tree);
  inactive_cached = v.inactive_cached;
}
insert-IsValid q p false d v = record {
  active_sorted = IsSorted-update_same q p _ _ refl v.active_sorted;
  inactive_sorted =
      IsSorted-update_same q p _ _ refl
        (insert-IsSorted (cmp_key-IsStrict _) p q.inactive_tree d.1 v.inactive_sorted);
  active_flags = All-update (λ _ x. x.active ≡ true) q.entities p _ _ d.0 v.active_flags;
  inactive_flags =
      All-insert (cmp q) _ p q.inactive_tree (ground arith)
        (All-update (λ _ x. x.active ≡ false) q.entities p _ _ d.1 v.inactive_flags);
  active_cached = v.active_cached;
  inactive_cached = ground (arith, v.inactive_cached, first-insert (cmp q) p q.inactive_tree);
}

pub remove-IsValid : (q : KTimerQueue) (p : Ptr) → IsValid q → IsValid (remove q p)
unfolding remove
remove-IsValid q p v = elim (Bool-cases (q.entities p).active) [
  | inl on ↦ rw on (record {
    active_sorted = remove-IsSorted (cmp_key-IsStrict _) p q.active_tree v.active_sorted;
    inactive_sorted = v.inactive_sorted;
    active_flags = All-remove _ p _ v.active_flags;
    inactive_flags = v.inactive_flags;
    active_cached = rw (v.active_cached) (sym (first-remove p q.active_tree));
    inactive_cached = v.inactive_cached;
  })
  | inr off ↦ rw off (record {
    active_sorted = v.active_sorted;
    inactive_sorted = remove-IsSorted (cmp_key-IsStrict _) p q.inactive_tree v.inactive_sorted;
    active_flags = v.active_flags;
    inactive_flags = All-remove _ p _ v.inactive_flags;
    active_cached = v.active_cached;
    inactive_cached = rw (v.inactive_cached) (sym (first-remove p q.inactive_tree));
  })
]
