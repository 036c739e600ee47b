-- ===== src/Platform/Boot.antt =====
-- Starting the scheduler: `spawn_main_thread` of src/arch/platform.rs, on the Cortex-M port.
pub mod Started
use Prim.Native.String.{String}
use rtsched.Base.{ℕ, Ptr, Option, none, some}
use rtsched.Kernel.{Kernel, Result, done, ◌>>=◌}
use rtsched.Spawn.{Stack, top_of, spawn_idle_thread}
use rtsched.Sched.{register_idle_thread}
use rtsched.Platform.Frame.{Words, init_cortex_m_thread_stack}
use rtsched.Platform.Switch.{Registers, sv_call}
use rtsched.Platform.Switch

abbrev pub stack_top : Stack → Ptr
stack_top s = elim s.base [ none ↦ 0 | some base ↦ top_of base s.words ]

-- The idle thread's argument is null. `svc 0` runs `SVCall`, which returns into the idle thread.
unfoldable pub spawn_main_thread :
    Words
    → Registers
    → Kernel
    → String
    → (entry : ℕ) → Option Ptr
    → Stack
    → Result (Words × Registers × Kernel)
unfolding init_cortex_m_thread_stack spawn_idle_thread register_idle_thread Switch.spawn_main_thread
    sv_call
spawn_main_thread m r k name entry thread stack = do
  let frame = init_cortex_m_thread_stack m (stack_top stack) entry 0
  (k1, p) ←
      spawn_idle_thread (λ top. (init_cortex_m_thread_stack m top entry 0).1) k thread stack name
  k2 ← register_idle_thread k1 p
  (k3, start) ← Switch.spawn_main_thread k2 p
  let (r1, k4) = sv_call frame.0 r k3 start
  done (frame.0, r1, k4)
