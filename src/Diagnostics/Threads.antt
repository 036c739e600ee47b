-- ===== src/Diagnostics/Threads.antt =====
-- Which threads the traversals of src/diagnostics/runq.rs and src/diagnostics/waitq.rs visit.
use rtsched.Base.{
  IsDistinct, Bool, ◌&&◌, is_some, same_ptr, ◌+◌, Ptr, ◌≡◌, refl, sym, ap, ◌∙◌, List, [], ◌∷◌, ◌++◌,
  map, length, length-append, Option, none, some, All, All-mem, ◌∉◌, ◌==◌, if◌then◌else◌, arith,
  true, false,
}
use rtsched.Tree
use rtsched.Tree.Order.{IsSorted, cmp_key-IsStrict}
use rtsched.Kernel.{Kernel, done}
use rtsched.Kernel.Access.{state}
use rtsched.WaitQueue.{next_wait_entity, is_suspended, cmp_wait}
use rtsched.WaitQueue.Expiry.{cmp_wait-IsStrict}
use rtsched.RunQueue.{sched}
use rtsched.RunQueue.Order.{IsOrdered}
use rtsched.Diagnostics.{walk, traverse_wait_queue_fn, traverse_run_queue_fn, traverse_run_queue}
use rtsched.Diagnostics.Walk.{
  Leads, walk_lem, IsSorted-IsDistinct, Leads-next, Leads-append, or_head-nil, first-append,
}

-- Where the finite waits are in order, no suspended thread is listed twice, and the state of a thread
-- says which of the two it is in, `traverse_wait_queue_fn` visits every blocked thread exactly once:
-- the finite waits in order, then the suspended threads in the order in which they came.
pub traverse_wait_queue_fn_lem :
    {A : Type 0} (f : Ptr → A) (k : Kernel)
    → IsSorted (cmp_wait k.threads) k.wait_queue
    → IsDistinct k.suspended
    → All (λ p. is_suspended (state k p) ≡ false) k.wait_queue
    → All (λ p. is_suspended (state k p) ≡ true) k.suspended
    → traverse_wait_queue_fn f k ≡ done (map f (k.wait_queue ++ k.suspended))
unfolding traverse_wait_queue_fn next_wait_entity
traverse_wait_queue_fn_lem f k s d finite indefinite =
    let next : Ptr → Option Ptr = λ p. next_wait_entity k (some p) in
    let distinct = IsSorted-IsDistinct (cmp_wait-IsStrict k.threads) k.wait_queue s in
    let waits = Leads-next next k.wait_queue k.suspended distinct λ e m.
      rw (All-mem (λ p. is_suspended (state k p) ≡ false) e k.wait_queue finite m, next_wait_entity)
        refl in
    let suspensions = Leads-next next k.suspended [] d λ e m.
      rw
        (
          All-mem (λ p. is_suspended (state k p) ≡ true) e k.suspended indefinite m,
          next_wait_entity,
        )
        (or_head-nil (Tree.next e k.suspended)) in
    ap (walk f next (length k.wait_queue + length k.suspended))
      (sym (first-append k.wait_queue k.suspended))
    ∙ walk_lem f next (length k.wait_queue + length k.suspended) (k.wait_queue ++ k.suspended)
        (omega (arith, length-append k.wait_queue k.suspended))
        (Leads-append next k.wait_queue k.suspended waits suspensions)

-- What the run-queue cursor reads.
cursor : Bool → Option Ptr → List Ptr → Option Ptr → Option Ptr
cursor is_cfs current queue none = if is_cfs && is_some current then current else Tree.first queue
cursor is_cfs current queue (some p) =
    if same_ptr (some p) current then Tree.first queue else Tree.next p queue

-- The current thread, if it is a CFS thread.
abbrev pub running_cfs : Bool → Option Ptr → List Ptr
running_cfs false current = []
running_cfs true none = []
running_cfs true (some c) = c ∷ []

Leads-queue :
    (is_cfs : Bool) (current : Option Ptr) (queue : List Ptr)
    → IsDistinct queue
    → ((c : Ptr) → current ≡ some c → c ∉ queue)
    → Leads (λ p. cursor is_cfs current queue (some p)) queue none
unfolding cursor
Leads-queue is_cfs none queue d out = Leads-next _ queue [] d λ e m. or_head-nil (Tree.next e queue)
Leads-queue is_cfs (some c) queue d out = Leads-next _ queue [] d λ e m.
    let other : (e == c) ≡ false = ground (arith, out c refl) in
    rw other (or_head-nil (Tree.next e queue))

walk-cursor :
    {A : Type 0} (f : Ptr → A) (is_cfs : Bool) (current : Option Ptr) (queue : List Ptr)
    → IsDistinct queue
    → ((c : Ptr) → current ≡ some c → c ∉ queue)
    → walk f
        (λ p. cursor is_cfs current queue (some p))
        (length queue + 1)
        (cursor is_cfs current queue none)
      ≡ done (map f (running_cfs is_cfs current ++ queue))
unfolding cursor
walk-cursor f false current queue d out =
    walk_lem f _ (length queue + 1) queue (omega arith) (Leads-queue false current queue d out)
walk-cursor f true none queue d out =
    walk_lem f _ (length queue + 1) queue (omega arith) (Leads-queue true none queue d out)
walk-cursor f true (some c) queue d out =
    let same : (c == c) ≡ true = ground arith in
    let next : Ptr → Option Ptr = λ p. cursor true (some c) queue (some p) in
    let from_current : next c ≡ Tree.first queue = rw (same, cursor) refl in
    walk_lem f next (length queue + 1) (c ∷ queue) (omega arith)
      (Leads-append next (c ∷ []) queue from_current (Leads-queue true (some c) queue d out))

-- Where the run queue is in order and the current thread is not in it, `traverse_run_queue_fn` visits
-- every CFS thread that runs or is ready exactly once: the current thread, if it is a CFS thread, and
-- then the queue in the order of the virtual runtimes.
pub traverse_run_queue_fn_lem :
    {A : Type 0} (f : Ptr → A) (k : Kernel)
    → IsOrdered k
    → ((c : Ptr) → k.current_thread_ctx ≡ some c → c ∉ k.run_queue)
    → traverse_run_queue_fn f k
      ≡ done (map f (running_cfs k.current_thread_is_cfs k.current_thread_ctx ++ k.run_queue))
unfolding traverse_run_queue_fn traverse_run_queue cursor
traverse_run_queue_fn_lem f k s out =
    walk-cursor f k.current_thread_is_cfs k.current_thread_ctx k.run_queue
      (IsSorted-IsDistinct (cmp_key-IsStrict (λ p. (sched k.threads p).vruntime)) k.run_queue s) out
