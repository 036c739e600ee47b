-- ===== src/Tests/Board.antt =====
-- A board: the idle thread at 1, CFS threads at 2, 3 and 4, an RT thread at 5, the CFS timer at 10,
-- the wait timer at 11 and the RT timer at 12.
use rtsched.Base.{ℕ, Ptr, Bool, true, false, Option, none, some, [], ◌∷◌, ◌==◌, if◌then◌else◌}
use rtsched.Thread.{
  ThreadState, ThreadKind, idle, cfs, rt, ready, running, waiting, suspended, Thread,
}
use rtsched.KTimer.{KTimerEntity, RtKTimer, from_period}
use rtsched.KTimer.Queue.{KTimerQueue}
use rtsched.Kernel.{Kernel}
use rtsched.Trace.{Trace}

abbrev pub thread :
    (state : ThreadState) (kind : ThreadKind) (wake_at vruntime deadline : ℕ) (timer : Option Ptr)
    → Thread
thread state kind wake_at vruntime deadline timer = record {
  ctx = record { sp = 0; exc_return = 0; id = 1; name = "thread"; state = state; kind = kind };
  wait_entity = record { wake_at = wake_at; waitevt = none };
  sync_entity = record { deadline_at = deadline };
  sched_entity = record { sched_tick_cnt = 0; vruntime = vruntime; priority = 3 };
  ktimer_entity = timer;
  runtime = 0;
}

abbrev pub threads : Ptr → Thread
threads p =
    if p == 1
    then thread ready idle 0 0 0 none
    else if p == 2
    then thread running cfs 0 70 0 none
    else if p == 3
    then thread ready cfs 0 50 0 none
    else if p == 4
    then thread waiting cfs 90 60 40 none
    else thread suspended rt 0 0 30 (some 12)

abbrev pub timer : ℕ → Bool → ℕ → KTimerEntity
timer expire_at active period = record {
  expire_at = expire_at;
  active = active;
  timing = from_period period;
}

abbrev pub entities : Ptr → KTimerEntity
entities p =
    if p == 10 then timer 120 true 50 else if p == 11 then timer 90 false 0 else timer 150 true 80

abbrev pub queue : KTimerQueue
queue = record {
  entities = entities;
  active_tree = 10 ∷ [];
  inactive_tree = 11 ∷ [];
  first_active = some 10;
  first_inactive = some 11;
  now_ticks = 100;
}

abbrev pub rt_ktimer : RtKTimer
rt_ktimer = record { name = "rt"; miss_cnt = 0; thread_ctx = some 5 }

abbrev pub trace : Trace
trace = record {
  hooked = true;
  counters = record { context_switches = 0; deadline_misses = 0; wakeups = 0; yields = 0 };
  events = [];
}

-- Thread 2 runs, thread 3 is ready, thread 4 sleeps and thread 5 is blocked.
abbrev pub board : Kernel
board = record {
  threads = threads;
  rt_ktimers = λ _. rt_ktimer;
  ktimer_queue = queue;
  next_ktimer = some 10;
  cfs_ktimer = 10;
  wait_ktimer = 11;
  run_queue = 3 ∷ [];
  priority_sum = 6;
  wait_queue = 4 ∷ [];
  suspended = 5 ∷ [];
  current_thread_ctx = some 2;
  current_thread_is_cfs = true;
  idle_thread_ctx = some 1;
  scheduler_started = true;
  timer_reload = some 19;
  timer_current = some 9;
  switch_requested = false;
  sys_clk_freq = 1000000;
  next_thread_id = 6;
  trace = trace;
}
