-- ===== src/Tests/Platform.antt =====
-- The theorems on the ports and on the cycle timing, at concrete inputs.
use rtsched.Base.{Ptr, ◌+◌, ◌≤◌, ◌≡◌, refl, arith, [], ◌∷◌, some}
use rtsched.Kernel.{Returns, ok}
use rtsched.Spawn.{validate_stack}
use rtsched.Platform.Frame.{Words, init_cortex_m_thread_stack, init_thread_stack}
use rtsched.Platform.Frame.Layout.{
  init_cortex_m_thread_stack-init_thread_stack, init_cortex_m_thread_stack-HoldsFrame, HoldsFrame,
}
use rtsched.Platform.Switch.{Registers, save_context, restore_context}
use rtsched.Platform.Switch.Saved.{restore_context-save_context, IsResumed}
use rtsched.Base.{Option, none, ◌==◌, if◌then◌else◌}
use rtsched.Kernel.{Kernel}
use rtsched.Thread.{Thread}
use rtsched.Platform.Switch.{set_context}
use rtsched.Platform.Boot.{spawn_main_thread}
use rtsched.Platform.Boot.Started.{spawn_main_thread-IsStarted, Enters, IsStarted}
use rtsched.Trace.Timing.{Timing, sched_tick_to_pendsv_timing}
use rtsched.Trace.Timing.Summary.{run_ticks, run_ticks-IsSummary, IsSummary}
use rtsched.Sched.Running.{IsScheduling, NoOtherRuns}
use rtsched.Tests.Board.{board}

abbrev no_words : Words
no_words p = 0

init_cortex_m_thread_stack-init_thread_stack_example :
    ((init_cortex_m_thread_stack no_words 4100 77 5).1 ≡ (init_thread_stack no_words 4100 77 5).1)
    × ((a : Ptr)
        → (init_cortex_m_thread_stack no_words 4100 77 5).0 a
          ≡ (init_thread_stack no_words 4100 77 5).0 a)
init_cortex_m_thread_stack-init_thread_stack_example =
    init_cortex_m_thread_stack-init_thread_stack no_words 4100 77 5 (omega arith)

stack-valid : validate_stack (record { base = some 4096; words = 64 }) ≡ ok tt
unfolding validate_stack
stack-valid = refl

init_cortex_m_thread_stack-HoldsFrame_example :
    (4096 ≤ (init_cortex_m_thread_stack no_words 4352 77 5).1.sp)
    × ((init_cortex_m_thread_stack no_words 4352 77 5).1.sp + 64 ≡ 4352)
    × HoldsFrame no_words
        (init_cortex_m_thread_stack no_words 4352 77 5).0
        (init_cortex_m_thread_stack no_words 4352 77 5).1.sp
        77
        5
init_cortex_m_thread_stack-HoldsFrame_example =
    init_cortex_m_thread_stack-HoldsFrame no_words 4096 64 77 5 (omega arith) stack-valid

-- A thread on the process stack with an active FP context.
abbrev registers : Registers
registers = record {
  callee_saved = 4 ∷ 5 ∷ 6 ∷ 7 ∷ 8 ∷ 9 ∷ 10 ∷ 11 ∷ [];
  fp_callee_saved =
      16 ∷ 17 ∷ 18 ∷ 19 ∷ 20 ∷ 21 ∷ 22 ∷ 23 ∷ 24 ∷ 25 ∷ 26 ∷ 27 ∷ 28 ∷ 29 ∷ 30 ∷ 31 ∷ [];
  msp = 8192;
  psp = 4352;
  lr = 4294967277;
}

abbrev other_registers : Registers
other_registers = record registers { callee_saved = []; psp = 6000; lr = 4294967293 }

restore_context-save_context_example : IsResumed registers other_registers (
    restore_context
      (save_context no_words registers).0
      other_registers
      (save_context no_words registers).1
      registers.lr)
restore_context-save_context_example =
    restore_context-save_context no_words (save_context no_words registers).0 registers
      other_registers refl refl (omega arith) (λ a from to. refl)

board-IsScheduling : IsScheduling board 2 1
board-IsScheduling = record {
  current = refl;
  alive = refl;
  alone = λ q. ground arith;
  idle = refl;
  linked = refl;
}

-- The registers that thread 3 was left with, the store since then, and the board: the current thread
-- is 2, with its stack elsewhere.
abbrev left_registers : Registers
left_registers = record registers { psp = 6000 }

abbrev left_words : Words
left_words = (save_context no_words left_registers).0

abbrev left_board : Kernel
left_board = record board { threads = λ p. set_context 5904 4294967277 (board.threads p) }

abbrev left : Ptr → Option Registers
left q = if q == 3 then some left_registers else none

-- The board before any thread runs but what storage 2 holds.
board-NoOtherRuns : NoOtherRuns board 2
board-NoOtherRuns q = ground arith

spawn_main_thread-IsStarted_example :
    Returns
      (λ s. Enters s.0 s.1 4352 77 × IsStarted s.2 2)
      (spawn_main_thread no_words registers board "idle" 77
        (some 2)
        (record { base = some 4096; words = 64 }))
spawn_main_thread-IsStarted_example =
    spawn_main_thread-IsStarted no_words registers board "idle" 77 2 4096 64 (omega arith)
      stack-valid board-NoOtherRuns refl

-- Across a wrap-around of the counter, 2500 cycles at 1000 a millisecond.

abbrev timing : Timing
timing = record {
  enabled = 0;
  armed = 0;
  start_cycle = 0;
  last_ticks = 0;
  min_ticks = 0;
  max_ticks = 0;
  samples = 0;
  advance_ktimers_last_ticks = 0;
  advance_ktimers_max_ticks = 0;
  dispatch_expired_ktimer_last_ticks = 0;
  dispatch_expired_ktimer_max_ticks = 0;
}

run_ticks-IsSummary_example :
    IsSummary
      (sched_tick_to_pendsv_timing
        (run_ticks ((500, 530) ∷ (4294967290, 24) ∷ (10, 50) ∷ []) timing))
      (30 ∷ 30 ∷ 40 ∷ [])
run_ticks-IsSummary_example =
    run_ticks-IsSummary ((500, 530) ∷ (4294967290, 24) ∷ (10, 50) ∷ []) timing
      (omega arith, (omega arith, (omega arith, tt))) (omega arith)
