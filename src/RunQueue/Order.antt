-- ===== src/RunQueue/Order.antt =====
-- The order of the CFS run queue in src/runq.rs, and who is in it.
use rtsched.Base.{
  ℕ, ◌+◌, ◌%◌, ◌^◌, ◌≡◌, refl, ap, ap₂, ◌∙◌, Ptr, List, All-of_mem, ◌∈◌, ◌∉◌, length, arith, inl,
  inr, Option-cases,
}
use rtsched.Tree
use rtsched.Tree.Order.{IsSorted, cmp_key-IsStrict}
use rtsched.Tree.Insert.{has-insert, length-insert, insert-IsSorted}
use rtsched.Tree.Frame.{IsSorted-frame}
use rtsched.Thread.{ready, ThreadState, SchedEntity}
use rtsched.Kernel.{Kernel}
use rtsched.Kernel.Access.{set_thread_state, set_sched_entity}
use rtsched.RunQueue.{sched, cmp_sched, enqueue, update_from_leftmost, enqueue_thread}

abbrev pub vruntime : Kernel → Ptr → ℕ
vruntime k p = (sched k.threads p).vruntime

abbrev pub IsOrdered : Kernel → Type 0
IsOrdered k = IsSorted (cmp_sched k.threads) k.run_queue

-- Writing an entity that is not queued keeps the order.
frame :
    (k : Kernel) (p : Ptr) (e : SchedEntity) (xs : List Ptr)
    → p ∉ xs
    → IsSorted (cmp_sched k.threads) xs
    → IsSorted (cmp_sched (set_sched_entity k p e).threads) xs
frame k p e xs out s =
    IsSorted-frame (vruntime k) (vruntime (set_sched_entity k p e)) xs
      (All-of_mem (λ a. vruntime (set_sched_entity k p e) a ≡ vruntime k a) xs λ a m. ground arith)
      s

pub frame_state :
    (k : Kernel) (p : Ptr) (st : ThreadState) (xs : List Ptr)
    → IsSorted (cmp_sched k.threads) xs
    → IsSorted (cmp_sched (set_thread_state k p st).threads) xs
frame_state k p st xs s =
    IsSorted-frame (vruntime k) (vruntime (set_thread_state k p st)) xs
      (All-of_mem (λ a. vruntime (set_thread_state k p st) a ≡ vruntime k a) xs λ a m. ground arith)
      s

pub update_from_leftmost-IsOrdered :
    (k : Kernel) (p : Ptr)
    → p ∉ k.run_queue
    → IsOrdered k
    → IsOrdered (update_from_leftmost k p)
      × ((update_from_leftmost k p).run_queue ≡ k.run_queue)
      × ((update_from_leftmost k p).priority_sum ≡ k.priority_sum)
      × ((sched (update_from_leftmost k p).threads p).priority ≡ (sched k.threads p).priority)
unfolding update_from_leftmost
update_from_leftmost-IsOrdered k p out s = elim (Option-cases (Tree.first k.run_queue)) [
  | inl e ↦ rw (e, update_from_leftmost) (s, refl, refl, refl)
  | inr (l, e) ↦
      rw (e, update_from_leftmost) (frame k p _ k.run_queue out s, refl, refl, ground arith)
]

pub enqueue-IsOrdered :
    (k : Kernel) (p : Ptr) → p ∉ k.run_queue → IsOrdered k → IsOrdered (enqueue k p)
unfolding enqueue
enqueue-IsOrdered k p out s = insert-IsSorted (cmp_key-IsStrict (vruntime k)) p k.run_queue out s

-- A thread that joins the run queue leaves it in order; its priority joins the sum.
pub enqueue_thread-IsOrdered :
    (k : Kernel) (p : Ptr)
    → p ∉ k.run_queue
    → IsOrdered k
    → IsOrdered (enqueue_thread k p)
      × (p ∈ (enqueue_thread k p).run_queue)
      × (length (enqueue_thread k p).run_queue ≡ length k.run_queue + 1)
      × ((enqueue_thread k p).priority_sum
          ≡ (k.priority_sum + (sched k.threads p).priority) % 2 ^ 32)
unfolding enqueue_thread enqueue
enqueue_thread-IsOrdered k p out s =
    let r = set_thread_state k p ready in
    let moved = update_from_leftmost-IsOrdered r p out (frame_state k p ready k.run_queue s) in
    let j = update_from_leftmost r p in
    let cmp = cmp_sched j.threads in
    (
      enqueue-IsOrdered j p (rw (moved.1) out) moved.0,
      rw (has-insert cmp p p j.run_queue) (ground arith),
      rw (length-insert cmp p j.run_queue) (ap (λ xs. length xs + 1) moved.1),
      ap₂ (λ a b. (a + b) % 2 ^ 32) moved.2
          (moved.3
            ∙ (let kept : (sched r.threads p).priority ≡ (sched k.threads p).priority =
                  ground arith in
                kept)),
    )
