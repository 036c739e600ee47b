-- ===== src/Timers/Linked.antt =====
-- Whom `wake_wait_thread` of src/ktimer.rs leaves waiting.
use rtsched.Base.{
  ℕ, zero, suc, ◌+◌, ◌<◌, ◌≡◌, ◌∙◌, refl, ap, subst, Ptr, Bool, true, List, [], ◌∷◌, All, All-imp,
  length, arith, inl, inr, Option-cases,
}
use rtsched.Thread.{Thread, WaitEntity}
use rtsched.Kernel.{Kernel, Returns, Returns->>=, Returns-imp, Returns-Ensures}
use rtsched.Kernel.Access.{now_ticks}
use rtsched.WaitQueue.{cmp_wait, pop_expired_wait_thread}
use rtsched.WaitQueue.Expiry.{wake_at, IsExpiry, pop_expired_wait_thread-IsExpiry}
use rtsched.Tree.Order.{IsSorted}
use rtsched.Base.{◌≤◌, ap₂, sym, ltb, Ordering, if◌then◌else◌}
use rtsched.Timers.{wake_one, wake_loop, wake_wait_thread}
use rtsched.Timers.Drain.{Keeps, wake_one-Keeps, popped}
use rtsched.Timers.Links.{linked, view, SameLinks, wake_one-SameLinks}

-- The threads of the sequence whose wake time has not come at the time `now`.
abbrev pub not_yet : Kernel → ℕ → List Ptr → List Ptr
not_yet k now [] = []
not_yet k now (p ∷ ps) =
    let rest = not_yet k now ps in if ltb now (wake_at k p) then p ∷ rest else rest

not_yet-All :
    (k : Kernel) (now : ℕ) (ps : List Ptr) → All (λ q. now < wake_at k q) ps → not_yet k now ps ≡ ps
not_yet-All k now [] h = refl
not_yet-All k now (p ∷ ps) h = ground (arith, not_yet-All k now ps h.1)

not_yet-same :
    (k k' : Kernel) (now : ℕ) (ps : List Ptr)
    → SameLinks k k'
    → not_yet k' now ps ≡ not_yet k now ps
not_yet-same k k' now [] same = refl
not_yet-same k k' now (p ∷ ps) same =
    let wake : wake_at k' p ≡ wake_at k p = ap (λ (x : Bool × WaitEntity). x.1.wake_at) (same p) in
    rw (wake, not_yet-same k k' now ps same) refl

not_yet-due :
    (k : Kernel) (now : ℕ) (p : Ptr) (ps : List Ptr)
    → wake_at k p ≤ now
    → not_yet k now (p ∷ ps) ≡ not_yet k now ps
not_yet-due k now p ps h = ground arith

cmp_wait-same :
    (k k' : Kernel) (p q : Ptr) → SameLinks k k' → cmp_wait k'.threads p q ≡ cmp_wait k.threads p q
unfolding cmp_wait
cmp_wait-same k k' p q same =
    rw (ap (λ (x : Bool × WaitEntity). x.1) (same p), ap (λ (x : Bool × WaitEntity). x.1) (same q))
      refl

sorted_still :
    (k k' : Kernel) (ps : List Ptr)
    → SameLinks k k'
    → IsSorted (cmp_wait k.threads) ps
    → IsSorted (cmp_wait k'.threads) ps
sorted_still k k' [] same s = tt
sorted_still k k' (p ∷ ps) same s = (
  All-imp {P = λ q. cmp_wait k.threads p q ≡ Ordering.lt}
      {Q = λ q. cmp_wait k'.threads p q ≡ Ordering.lt} (λ q h. cmp_wait-same k k' p q same ∙ h) ps
      s.0,
  sorted_still k k' ps same s.1,
)

linked_still :
    (k k' : Kernel) (ps : List Ptr)
    → SameLinks k k'
    → All (λ q. linked k q ≡ true) ps
    → All (λ q. linked k' q ≡ true) ps
linked_still k k' ps same =
    All-imp {P = λ q. linked k q ≡ true} {Q = λ q. linked k' q ≡ true}
      (λ q g. ap (λ (x : Bool × WaitEntity). x.0) (same q) ∙ g) ps

same_threads : (k k' : Kernel) → k'.threads ≡ k.threads → SameLinks k k'
same_threads k k' e q = ap (λ (f : Ptr → Thread). view (record k { threads = f }) q) e

-- A sequence in order, each thread of which has its timer.
IsWaiting : Kernel → List Ptr → Type 0
IsWaiting k ps = IsSorted (cmp_wait k.threads) ps × All (λ q. linked k q ≡ true) ps

IsWaiting-still :
    (k k' : Kernel) (ps : List Ptr) → SameLinks k k' → IsWaiting k ps → IsWaiting k' ps
unfolding IsWaiting
IsWaiting-still k k' ps same w = (sorted_still k k' ps same w.0, linked_still k k' ps same w.1)

IsWaiting-rest : (k : Kernel) (p : Ptr) (ps : List Ptr) → IsWaiting k (p ∷ ps) → IsWaiting k ps
unfolding IsWaiting
IsWaiting-rest k p ps w = (w.0.1, w.1.1)

returned :
    (fuel : ℕ) (k : Kernel) (n : ℕ)
    → length k.wait_queue < fuel
    → IsWaiting k k.wait_queue
    → Returns
        (λ r. (r.wait_queue ≡ not_yet k (now_ticks k) k.wait_queue) × (now_ticks r ≡ now_ticks k))
        (wake_loop fuel k n)
unfolding wake_loop IsWaiting
returned zero k n h w = absurd (omega arith)
returned (suc fuel) k n h w = elim (Option-cases (pop_expired_wait_thread k (now_ticks k))) [
  | inl e ↦
      let none_due =
        subst (IsExpiry k (now_ticks k)) e (pop_expired_wait_thread-IsExpiry k (now_ticks k) w.0) in
      rw (e, wake_loop) (sym (not_yet-All k (now_ticks k) k.wait_queue none_due), refl)
  | inr ((p, k'), e) ↦
      let due =
        subst (IsExpiry k (now_ticks k)) e (pop_expired_wait_thread-IsExpiry k (now_ticks k) w.0) in
      let one_less = popped k (now_ticks k) k.wait_queue refl e in
      let popped_same = same_threads k k' due.3 in
      let all =
        IsWaiting-still k k' (p ∷ k'.wait_queue) popped_same (subst (IsWaiting k) due.0 w) in
      let woken =
        Returns-Ensures (SameLinks k') (Keeps k') (wake_one k' p n)
          (wake_one-SameLinks k' p n all.1.0) (wake_one-Keeps k' p n) in
      rw (e, wake_loop)
        (Returns->>= (λ r. SameLinks k' r × Keeps k' r) _ (wake_one k' p n) _ woken
          λ r kept.
            let waits : r.wait_queue ≡ k'.wait_queue = kept.1.0 in
            let clock : now_ticks r ≡ now_ticks k = kept.1.1 ∙ one_less.1 in
            let left =
              ap₂ (not_yet r) clock waits
              ∙ not_yet-same k' r (now_ticks k) k'.wait_queue kept.0
              ∙ not_yet-same k k' (now_ticks k) k'.wait_queue popped_same
              ∙ sym (not_yet-due k (now_ticks k) p k'.wait_queue due.1)
              ∙ ap (not_yet k (now_ticks k)) (sym due.0) in
            Returns-imp (λ x g. (g.0 ∙ left, g.1 ∙ clock)) (wake_loop fuel r n)
              (returned fuel r n (omega (arith, one_less.0, ap length waits)) (
                subst (IsWaiting r) (sym waits) (
                  IsWaiting-still k' r k'.wait_queue kept.0
                    (IsWaiting-rest k' p k'.wait_queue all)))))
]

-- If the wait queue is in order and each RT thread in it has its timer, `wake_wait_thread` returns.
-- Exactly the threads whose wake time lies after the present still wait then, in the order that they
-- had, and the clock has not moved.
pub wake_wait_thread_lem :
    (k : Kernel) (n : ℕ)
    → IsSorted (cmp_wait k.threads) k.wait_queue
    → All (λ q. linked k q ≡ true) k.wait_queue
    → Returns
        (λ r. (r.wait_queue ≡ not_yet k (now_ticks k) k.wait_queue) × (now_ticks r ≡ now_ticks k))
        (wake_wait_thread k n)
unfolding wake_wait_thread IsWaiting
wake_wait_thread_lem k n s l = returned (length k.wait_queue + 1) k n (omega arith) (s, l)
