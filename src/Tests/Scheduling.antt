-- ===== src/Tests/Scheduling.antt =====
-- The theorems on scheduling and timers, at a concrete board.
use rtsched.Base.{
  [], ◌∷◌, not, ◌&&◌, ◌≡◌, ◌≢◌, ◌≤◌, ◌+◌, ◌&&◌, ◌||◌, not, Ptr, true, none, some, ◌==◌, arith, refl,
  max,
}
use rtsched.KTimer.{reload_for_entity, reload_min, reload_max}
use rtsched.KTimer.Reload.{interval, reload_for_entity-interval}
use rtsched.KTimer.Queue
use rtsched.KTimer.Queue.{KTimerQueue, contains, first}
use rtsched.KTimer.Queue.Inv.{IsValid, IsDetached}
use rtsched.KTimer.Queue.Members.{insert_lem, remove_lem}
use rtsched.KTimer.Queue.Least.{IsEarliest, first-IsEarliest}
use rtsched.Kernel.{Kernel, stopped, Returns, out_of_fuel}
use rtsched.Kernel.Access.{now_ticks}
use rtsched.Timers.{wake_wait_thread, refresh_next_ktimer}
use rtsched.Timers.Drain.{wake_wait_thread-in_fuel}
use rtsched.Timers.Linked.{not_yet, wake_wait_thread_lem}
use rtsched.Deadline.{set_thread_scheduler_expire_at}
use rtsched.Deadline.Expiry.{IsRetimed, set_thread_scheduler_expire_at_lem}
use rtsched.Sched.{schedule}
use rtsched.Sched.Running.{HasRunning, IsScheduling}
use rtsched.Sched.Next.{schedule-HasRunning}
use rtsched.Timers.Missed.{IsRefreshed, refresh_next_ktimer-IsRefreshed}
use rtsched.Tests.Board.{board, queue, timer}

board-IsScheduling : IsScheduling board 2 1
board-IsScheduling = record {
  current = refl;
  alive = refl;
  alone = λ q. ground arith;
  idle = refl;
  linked = refl;
}

schedule-HasRunning_example : Returns HasRunning (schedule board)
schedule-HasRunning_example = schedule-HasRunning board 2 1 board-IsScheduling

queue-IsValid : IsValid queue
queue-IsValid = record {
  active_sorted = (tt, tt);
  inactive_sorted = (tt, tt);
  active_flags = (refl, tt);
  inactive_flags = (refl, tt);
  active_cached = refl;
  inactive_cached = refl;
}

insert_lem_example :
    IsValid (Queue.insert queue 12 true)
    × (((Queue.insert queue 12 true).entities 12).active ≡ true)
    × ((a : Ptr) → contains (Queue.insert queue 12 true) a ≡ (a == 12 || contains queue a))
insert_lem_example = insert_lem queue 12 true (refl, refl) queue-IsValid

queue-contains : contains queue 10 ≡ true
unfolding contains
queue-contains = refl

remove_lem_example :
    IsValid (Queue.remove queue 10)
    × IsDetached (Queue.remove queue 10) 10
    × ((a : Ptr) → contains (Queue.remove queue 10) a ≡ (contains queue a && not (a == 10)))
    × ((Queue.remove queue 10).entities ≡ queue.entities)
    × ((Queue.remove queue 10).now_ticks ≡ queue.now_ticks)
remove_lem_example = remove_lem queue 10 queue-IsValid queue-contains

queue-first : first queue ≡ some 11
unfolding first
queue-first = refl

first-IsEarliest_example : IsEarliest queue (first queue)
first-IsEarliest_example = first-IsEarliest queue queue-IsValid

empty-first : first (Queue.new queue.entities) ≡ none
unfolding first
empty-first = refl

reload_for_entity-interval_example :
    (reload_for_entity true 100 (timer 120 true 50) + 1
      ≡ max 2 (interval true 100 (timer 120 true 50)))
    × (reload_min ≤ reload_for_entity true 100 (timer 120 true 50))
    × (reload_for_entity true 100 (timer 120 true 50) ≤ reload_max)
reload_for_entity-interval_example =
    reload_for_entity-interval true 100 (timer 120 true 50) (omega arith)

wake_wait_thread_lem_example :
    Returns
      (λ r. (r.wait_queue ≡ not_yet board 100 (4 ∷ [])) × (now_ticks r ≡ 100))
      (wake_wait_thread board 10)
wake_wait_thread_lem_example = wake_wait_thread_lem board 10 (tt, tt) (refl, tt)

-- Thread 4 is due and leaves.
nobody_left : not_yet board 100 (4 ∷ []) ≡ []
nobody_left = refl

wake_wait_thread-in_fuel_example : wake_wait_thread board 10 ≢ stopped out_of_fuel
wake_wait_thread-in_fuel_example = wake_wait_thread-in_fuel board 10

-- The timer of the CFS threads is queued and selected; the one of thread 5 is neither.
set_thread_scheduler_expire_at_lem_example :
    Returns (λ r. IsRetimed board r 10 130) (set_thread_scheduler_expire_at board 2 130)
set_thread_scheduler_expire_at_lem_example =
    set_thread_scheduler_expire_at_lem board 2 10 130 queue-IsValid (omega arith, tt) refl
      (omega arith)

set_unqueued : Returns (λ r. IsRetimed board r 12 130) (set_thread_scheduler_expire_at board 5 130)
set_unqueued =
    set_thread_scheduler_expire_at_lem board 5 12 130 queue-IsValid (omega arith, tt) refl
      (omega arith)

-- The RT timer is selected and due, and its thread has run past the relative deadline.
abbrev late_queue : KTimerQueue
late_queue = record queue { active_tree = 12 ∷ []; first_active = some 12; now_ticks = 160 }

abbrev late : Kernel
late = record board {
  ktimer_queue = late_queue;
  threads = λ p. record (board.threads p) { runtime = 90 };
}

late_queue-IsValid : IsValid late_queue
late_queue-IsValid = record {
  active_sorted = (tt, tt);
  inactive_sorted = (tt, tt);
  active_flags = (refl, tt);
  inactive_flags = (refl, tt);
  active_cached = refl;
  inactive_cached = refl;
}

refresh_next_ktimer-IsRefreshed_example : IsRefreshed late 12 5 (refresh_next_ktimer late)
refresh_next_ktimer-IsRefreshed_example =
    refresh_next_ktimer-IsRefreshed late 12 5 late_queue-IsValid refl (omega arith) refl refl
      (omega arith)

-- With the run time at the relative deadline, the timer is renewed.
abbrev just_in_time : Kernel
just_in_time = record late { threads = λ p. record (board.threads p) { runtime = 80 } }

renewed_in_time : IsRefreshed just_in_time 12 5 (refresh_next_ktimer just_in_time)
renewed_in_time =
    refresh_next_ktimer-IsRefreshed just_in_time 12 5 late_queue-IsValid refl (omega arith) refl
      refl (omega arith)
