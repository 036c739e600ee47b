-- ===== src/Tests/Diagnostics.antt =====
-- The theorems on the traversals, at the board.
use Prim.Native.String.{String}
use rtsched.Base.{ℕ, Ptr, ◌≡◌, refl, arith, List, [], ◌∷◌, map, some, has, length, false}
use rtsched.Tree.Order.{IsSorted}
use rtsched.Kernel.{done}
use rtsched.Kernel.Access.{ktimer, now_ticks}
use rtsched.KTimer.{remaining_at}
use rtsched.KTimer.Queue.{cmp, contains, len}
use rtsched.KTimer.Queue.Inv.{IsValid}
use rtsched.Diagnostics.{traverse_ktimer_queue_fn, traverse_wait_queue_fn, ktimer_name}
use rtsched.Diagnostics.Threads.{traverse_wait_queue_fn_lem}
use rtsched.Diagnostics.Timers.{traverse_ktimer_queue_fn_lem}
use rtsched.Tests.Board.{board, queue}

traverse_wait_queue_fn_lem_example : traverse_wait_queue_fn (λ p. p) board ≡ done (4 ∷ 5 ∷ [])
traverse_wait_queue_fn_lem_example =
    traverse_wait_queue_fn_lem (λ p. p) board (tt, tt) (refl, tt) (refl, tt) (refl, tt)

current-out : (c : Ptr) → board.current_thread_ctx ≡ some c → has c board.run_queue ≡ false
current-out c e = ground arith

queue-IsValid : IsValid queue
queue-IsValid = record {
  active_sorted = (tt, tt);
  inactive_sorted = (tt, tt);
  active_flags = (refl, tt);
  inactive_flags = (refl, tt);
  active_cached = refl;
  inactive_cached = refl;
}

abbrev report : Ptr → String → ℕ → Ptr × String × ℕ
report e name remaining = (e, name, remaining)

traverse_ktimer_queue_fn_lem_example :
    (es : List Ptr) × IsSorted (cmp queue) es
    × ((a : Ptr) → has a es ≡ contains queue a)
    × (length es ≡ len queue)
    × (traverse_ktimer_queue_fn report board
        ≡ done (
            map
              (λ e.
                report e (ktimer_name board e) (remaining_at (now_ticks board) (ktimer board e)))
              es))
traverse_ktimer_queue_fn_lem_example = traverse_ktimer_queue_fn_lem report board queue-IsValid

-- The inactive wait timer is due first.
traversed : traverse_ktimer_queue_fn (λ e name remaining. name) board ≡ done ("wait" ∷ "cfs" ∷ [])
unfolding traverse_ktimer_queue_fn remaining_at
traversed = refl
