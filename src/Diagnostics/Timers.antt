-- ===== src/Diagnostics/Timers.antt =====
-- Which timers the traversal of src/diagnostics/ktimer.rs visits.
use Prim.Native.String.{String}
use rtsched.Base.{
  ℕ, Ptr, true, false, ◌≡◌, refl, sym, subst, ap, ◌∙◌, List, [], map, length, some, All-mem,
  All-of_mem, ◌∈◌, ◌∉◌, ◌==◌, has, arith, Bool-cases, inl, inr, Option-cases,
}
use rtsched.Tree
use rtsched.Tree.Order.{IsSorted}
use rtsched.Tree.First.{has-first, first-none, first-least}
use rtsched.Kernel.{Kernel, done}
use rtsched.Kernel.Access.{ktimer, now_ticks}
use rtsched.KTimer.{remaining_at}
use rtsched.KTimer.Queue.{KTimerQueue, cmp, contains, first, next, len}
use rtsched.KTimer.Queue.Inv.{IsValid}
use rtsched.KTimer.Queue.Least.{first_lem, first-none_lem, contains-first}
use rtsched.Diagnostics.{walk, traverse_ktimer_queue_fn, ktimer_name}
use rtsched.Diagnostics.Walk.{walk_lem, IsSorted-IsDistinct, Leads-next, or_head-nil}
use rtsched.Diagnostics.Merged.{
  strict, earlier_of-IsNextIn, has-insert_all, length-insert_all, insert_all-IsSorted, merged,
}
use rtsched.Diagnostics.Next.{IsNextIn, IsNextIn-unique, upper_bound-IsNextIn, next-upper_bound}

module _ (q : KTimerQueue) (v : IsValid q) where
  has-merged : (a : Ptr) → has a (merged q) ≡ contains q a
  unfolding merged contains
  has-merged a = ground (arith, has-insert_all (cmp q) a q.inactive_tree q.active_tree)

  active-inactive : (a : Ptr) → a ∈ q.inactive_tree → a ∉ q.active_tree
  active-inactive a m = elim (Bool-cases (has a q.active_tree)) [
    | inr out ↦ out
    | inl i ↦ absurd (
        ground (
          arith,
          All-mem (λ x. (q.entities x).active ≡ true) a q.active_tree v.active_flags i,
          All-mem (λ x. (q.entities x).active ≡ false) a q.inactive_tree v.inactive_flags m,
        ))
  ]

  merged-IsSorted : IsSorted (cmp q) (merged q)
  unfolding merged
  merged-IsSorted =
      insert_all-IsSorted (strict q) q.inactive_tree q.active_tree
        (IsSorted-IsDistinct (strict q) q.inactive_tree v.inactive_sorted)
        (All-of_mem (λ x. x ∉ q.active_tree) q.inactive_tree active-inactive) v.active_sorted

  first-merged : first q ≡ Tree.first (merged q)
  first-merged = elim (Option-cases (first q)) [
    | inl e ↦ elim (Option-cases (Tree.first (merged q))) [
      | inl f ↦ e ∙ sym f
      | inr (b, f) ↦
          absurd (ground (arith, first-none_lem q b v e, has-first (merged q) f, has-merged b))
    ]
    | inr (a, e) ↦ elim (Option-cases (Tree.first (merged q))) [
      | inl f ↦
          absurd (ground (arith, first-none (merged q) a f, contains-first q v e, has-merged a))
      | inr (b, f) ↦ elim (Bool-cases (b == a)) [
        | inl i ↦ let same : b ≡ a = ground arith in e ∙ ap some (sym same) ∙ sym f
        | inr i ↦
            let m = contains-first q v e in
            let n = has-first (merged q) f in
            let low = first_lem q {a = a} b v e (sym (has-merged b) ∙ n) (ground arith) in
            let high =
              first-least (cmp q) (merged q) {a = b} a merged-IsSorted f (has-merged a ∙ m)
                (ground arith) in
            absurd (ground (arith, (strict q).gt_of_lt a b low, high))
      ]
    ]
  ]

  -- A read of the tree that links `e`, joined with one of the other tree.
  next-IsNextIn : (e : Ptr) → contains q e ≡ true → IsNextIn (strict q) e (contains q) (next q e)
  unfolding next contains
  next-IsNextIn e m =
      let A = q.active_tree in
      let I = q.inactive_tree in
      let c = cmp q in
      let after : (xs : List Ptr)
          → IsSorted c xs
          → IsNextIn (strict q) e (λ a. has a xs) (Tree.upper_bound c e xs) =
        upper_bound-IsNextIn (strict q) e in
      elim (Bool-cases (has e A)) [
        | inl i ↦
            let flag = All-mem (λ x. (q.entities x).active ≡ true) e A v.active_flags i in
            let own = next-upper_bound (strict q) e A v.active_sorted i in
            rw (flag, next)
              (rw own (
                earlier_of-IsNextIn q e (λ a. has a A) (λ a. has a I) (contains q)
                  (Tree.upper_bound c e A) (Tree.upper_bound c e I) (λ a. refl)
                  (after A v.active_sorted) (after I v.inactive_sorted)))
        | inr o ↦
            let i : e ∈ I = ground (arith, m) in
            let flag = All-mem (λ x. (q.entities x).active ≡ false) e I v.inactive_flags i in
            let own = next-upper_bound (strict q) e I v.inactive_sorted i in
            rw (flag, next)
              (rw own (
                earlier_of-IsNextIn q e (λ a. has a I) (λ a. has a A) (contains q)
                  (Tree.upper_bound c e I) (Tree.upper_bound c e A) (λ a. ground arith)
                  (after I v.inactive_sorted) (after A v.active_sorted)))
      ]

  next-merged : (e : Ptr) → e ∈ merged q → next q e ≡ Tree.next e (merged q)
  next-merged e m =
      let c = cmp q in
      let whole : IsNextIn (strict q) e (λ a. has a (merged q)) (Tree.upper_bound c e (merged q)) =
        upper_bound-IsNextIn (strict q) e (merged q) merged-IsSorted in
      let queued = sym (has-merged e) ∙ m in
      IsNextIn-unique (strict q) e (contains q) (next q e) (Tree.upper_bound c e (merged q))
        (next-IsNextIn e queued)
        (subst (λ P. IsNextIn (strict q) e P (Tree.upper_bound c e (merged q)))
          (λ i a. has-merged a i) whole)
      ∙ sym (next-upper_bound (strict q) e (merged q) merged-IsSorted m)

-- With the queue's invariant, `traverse_ktimer_queue_fn` calls back for every queued timer, active or
-- not, exactly once, in ascending order of expiration, ties by address, with the timer's name and
-- remaining ticks, and then ends.
pub traverse_ktimer_queue_fn_lem :
    {A : Type 0} (f : Ptr → String → ℕ → A) (k : Kernel)
    → IsValid k.ktimer_queue
    → (es : List Ptr) × IsSorted (cmp k.ktimer_queue) es
      × ((a : Ptr) → has a es ≡ contains k.ktimer_queue a)
      × (length es ≡ len k.ktimer_queue)
      × (traverse_ktimer_queue_fn f k
          ≡ done (map (λ e. f e (ktimer_name k e) (remaining_at (now_ticks k) (ktimer k e))) es))
unfolding traverse_ktimer_queue_fn merged
traverse_ktimer_queue_fn_lem {A} f k v =
    let q = k.ktimer_queue in
    let report : Ptr → A = λ e. f e (ktimer_name k e) (remaining_at (now_ticks k) (ktimer k e)) in
    let size : length (merged q) ≡ len q =
      omega (arith, length-insert_all (cmp q) q.inactive_tree q.active_tree) in
    let distinct = IsSorted-IsDistinct (strict q) (merged q) (merged-IsSorted q v) in
    (
      merged q,
      merged-IsSorted q v,
      has-merged q v,
      size,
      ap (walk report (next q) (len q)) (first-merged q v)
          ∙ walk_lem report (next q) (len q) (merged q) (omega (arith, size)) (
              Leads-next (next q) (merged q) [] distinct
                λ e m. next-merged q v e m ∙ or_head-nil (Tree.next e (merged q))),
    )
