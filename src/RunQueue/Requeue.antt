-- ===== src/RunQueue/Requeue.antt =====
-- A woken CFS thread joins the run queue of src/runq.rs: the queue is rebuilt, and stays in order.
use rtsched.Base.{
  ℕ, ◌+◌, ◌≡◌, refl, Ptr, List, [], ◌∷◌, All, All-of_mem, All-mem, has, ◌∉◌, length, ◌==◌, ◌||◌,
  arith, saturating_add32,
}
use rtsched.Tree
use rtsched.Tree.Order.{IsSorted, cmp_key-IsStrict}
use rtsched.Tree.Insert.{has-insert, length-insert, insert-IsSorted}
use rtsched.Tree.Frame.{IsSorted-frame}
use rtsched.Tree.Remove.{head-not-mem}
use rtsched.Thread.{ready, SchedEntity}
use rtsched.Base.{Bool-cases, inl, inr, true, false, if◌then◌else◌, ◌∙◌, ap, Bool}
use rtsched.Kernel.{Kernel}
use rtsched.Kernel.Access.{set_thread_state, set_sched_entity}
use rtsched.RunQueue.{
  sched, cmp_sched, cfs_sched_ticks_from_vruntime, enqueue, update_from_leftmost, requeue,
  enqueue_runq_from_waitq,
}
use rtsched.RunQueue.Order.{
  vruntime, IsOrdered, frame_state, update_from_leftmost-IsOrdered, enqueue-IsOrdered,
}

-- The rebuilt entities keep their virtual runtimes, so any order by them is kept.
frame_ticks :
    (k : Kernel) (p : Ptr) (n : ℕ) (xs : List Ptr)
    → IsSorted (cmp_sched k.threads) xs
    → IsSorted
        (cmp_sched
          (set_sched_entity k p (record (sched k.threads p) { sched_tick_cnt = n })).threads)
        xs
frame_ticks k p n xs s =
    let k' = set_sched_entity k p (record (sched k.threads p) { sched_tick_cnt = n }) in
    IsSorted-frame (vruntime k) (vruntime k') xs
      (All-of_mem (λ a. vruntime k' a ≡ vruntime k a) xs λ a m. ground arith) s

-- The entity of a queued thread once the priorities of the runnable threads sum up to `sum`: its tick
-- count is that of its virtual runtime and its share, the rest is kept.
abbrev pub reticked : Kernel → ℕ → Ptr → SchedEntity
reticked k sum a = record (sched k.threads a) {
  sched_tick_cnt =
      cfs_sched_ticks_from_vruntime (sched k.threads a).vruntime (sched k.threads a).priority sum;
}

-- What rebuilding `xs` on top of `ys` leaves: only the threads of `xs` change, and only in their tick
-- counts.
record IsRequeued (k r : Kernel) (xs ys : List Ptr) : Type 0 where
  ordered : IsOrdered r
  members : (a : Ptr) → has a r.run_queue ≡ (has a xs || has a ys)
  total : length r.run_queue ≡ length xs + length ys
  ticks :
      (a : Ptr)
      → sched r.threads a ≡ (if has a xs then reticked k k.priority_sum a else sched k.threads a)
  sum : r.priority_sum ≡ k.priority_sum

-- What a thread other than the one just moved has, in the tree that is left or out of it.
kept_apart :
    (k : Kernel) (x a : Ptr) (n : ℕ) (b : Bool)
    → (a == x) ≡ false
    → (let k' = set_sched_entity k x (record (sched k.threads x) { sched_tick_cnt = n }) in
        if b then reticked k' k.priority_sum a else sched k'.threads a)
      ≡ (if (a == x) || b then reticked k k.priority_sum a else sched k.threads a)
kept_apart k x a n true ne = ground arith
kept_apart k x a n false ne = ground arith

requeue-IsRequeued :
    (xs ys : List Ptr) (k : Kernel)
    → IsSorted (cmp_sched k.threads) xs
    → IsSorted (cmp_sched k.threads) ys
    → All (λ x. x ∉ ys) xs
    → IsRequeued k (requeue k xs ys) xs ys
unfolding requeue
requeue-IsRequeued [] ys k s t out = record {
  ordered = t;
  members = λ a. refl;
  total = omega arith;
  ticks = λ a. refl;
  sum = refl;
}
requeue-IsRequeued (x ∷ xs) ys k s t out =
    let e = sched k.threads x in
    let n = cfs_sched_ticks_from_vruntime e.vruntime e.priority k.priority_sum in
    let k' = set_sched_entity k x (record e { sched_tick_cnt = n }) in
    let cmp = cmp_sched k'.threads in
    let first_out = head-not-mem (cmp_key-IsStrict (vruntime k)) x xs s in
    let joined =
      insert-IsSorted (cmp_key-IsStrict (vruntime k')) x ys out.0 (frame_ticks k x n ys t) in
    let apart =
      All-of_mem (λ a. a ∉ Tree.insert cmp x ys) xs
        λ a m. ground (arith, has-insert cmp a x ys, All-mem (λ b. b ∉ ys) a xs out.1 m) in
    let rest =
      requeue-IsRequeued xs (Tree.insert cmp x ys) k' (frame_ticks k x n xs s.1) joined apart in
    record {
      ordered = rest.ordered;
      members = λ a. ground (arith, rest.members a, has-insert cmp a x ys);
      total = omega (arith, rest.total, length-insert cmp x ys);
      ticks = λ a. elim (Bool-cases (a == x)) [
        | inl i ↦
            let same : a ≡ x = ground arith in
            rw (i, same, rest.ticks x) (rw first_out (ground arith))
        | inr i ↦ rest.ticks a ∙ kept_apart k x a n (has a xs) i
      ];
      sum = rest.sum;
    }

-- A joining thread takes over the left-most entity's virtual runtime; the others keep theirs.
update_from_leftmost-sched :
    (k : Kernel) (p a : Ptr)
    → (a == p) ≡ false
    → sched (update_from_leftmost k p).threads a ≡ sched k.threads a
unfolding update_from_leftmost
update_from_leftmost-sched k p a ne = ground arith

state-reticked :
    (k : Kernel) (p a : Ptr) (n : ℕ)
    → reticked (set_thread_state (record k { priority_sum = n }) p ready) n a ≡ reticked k n a
state-reticked k p a n = ground arith

-- A thread that wakes up, and is not in the run queue, joins it. If the queue was ordered by virtual
-- runtime it still is; it has the new thread and all those it had, and one more in number. Each
-- thread that it had keeps its virtual runtime and priority, and its tick count is computed again,
-- with the joining thread's priority in the saturating sum.
pub enqueue_runq_from_waitq-IsOrdered :
    (k : Kernel) (p : Ptr)
    → p ∉ k.run_queue
    → IsOrdered k
    → IsOrdered (enqueue_runq_from_waitq k p)
      × ((a : Ptr)
          → has a (enqueue_runq_from_waitq k p).run_queue ≡ ((a == p) || has a k.run_queue))
      × (length (enqueue_runq_from_waitq k p).run_queue ≡ length k.run_queue + 1)
      × All
          (λ a.
            sched (enqueue_runq_from_waitq k p).threads a
            ≡ reticked k (saturating_add32 k.priority_sum (sched k.threads p).priority) a)
          k.run_queue
unfolding enqueue_runq_from_waitq enqueue
enqueue_runq_from_waitq-IsOrdered k p out s =
    let sum = saturating_add32 k.priority_sum (sched k.threads p).priority in
    let r = set_thread_state (record k { priority_sum = sum }) p ready in
    let rebuilt =
      requeue-IsRequeued k.run_queue [] r (frame_state k p ready k.run_queue s) tt
        (All-of_mem (λ x. x ∉ []) k.run_queue λ a m. refl) in
    let q = requeue r k.run_queue [] in
    let absent : p ∉ q.run_queue = ground (arith, rebuilt.members p) in
    let moved = update_from_leftmost-IsOrdered q p absent rebuilt.ordered in
    let j = update_from_leftmost q p in
    let cmp = cmp_sched j.threads in
    (
      enqueue-IsOrdered j p (rw moved.1 absent) moved.0,
      λ a. rw (has-insert cmp a p j.run_queue) (rw moved.1 (ground (arith, rebuilt.members a))),
      rw (length-insert cmp p j.run_queue) (rw moved.1 (omega (arith, rebuilt.total))),
      All-of_mem (λ a. sched j.threads a ≡ reticked k sum a) k.run_queue
          λ a m.
            let ne : (a == p) ≡ false = ground arith in
            update_from_leftmost-sched q p a ne
            ∙ rebuilt.ticks a
            ∙ ap (λ (b : Bool). if b then reticked r sum a else sched r.threads a) m
            ∙ state-reticked k p a sum,
    )
