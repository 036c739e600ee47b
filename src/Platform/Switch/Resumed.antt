-- ===== src/Platform/Switch/Resumed.antt =====
-- The thread that `PendSV` returns to.
use rtsched.Base.{Ptr, Option, ◌≡◌, some, none}
use rtsched.Kernel.{Kernel, Result, done, stopped, null_pointer}
use rtsched.Sched.Running.{OnlyRuns}
use rtsched.Platform.Switch.Saved.{AgreeBetween, IsResumed}
use rtsched.Base.{◌⊎◌, ◌≤◌, ◌-◌, ◌==◌, if◌then◌else◌, length}
use rtsched.Thread.{Thread}
use rtsched.Platform.Switch.{thread_sp}
use rtsched.Platform.Frame.{Words}
use rtsched.Platform.Switch.{Registers, save_context, restore_context}

-- The thread's context and its stack in `m` hold the registers `s`, since they were saved to the store
-- `from`.
pub record IsParked (m : Words) (t : Thread) (s : Registers) : Type 0 where
  pub core : length s.callee_saved ≡ 8
  pub fp : length s.fp_callee_saved ≡ 16
  pub room : 96 ≤ thread_sp s
  pub from : Words
  pub sp : t.ctx.sp ≡ (save_context from s).1
  pub exc_return : t.ctx.exc_return ≡ s.lr
  pub stored : AgreeBetween (save_context from s).0 m t.ctx.sp (thread_sp s)

-- The registers that each thread was left with, if it was: they are all kept.
abbrev pub IsKept : Words → Thread → Option Registers → Type 0
IsKept m t none = Unit {0}
IsKept m t (some s) = IsParked m t s

abbrev pub AllKept : Words → Kernel → (Ptr → Option Registers) → Type 0
AllKept m k saved = (q : Ptr) → IsKept m (k.threads q) (saved q)

-- They are not where `PendSV` saves the registers `r`.
abbrev pub IsApart : Registers → Thread → Option Registers → Type 0
IsApart r t none = Unit {0}
IsApart r t (some s) = (thread_sp s ≤ thread_sp r - 96) ⊎ (thread_sp r ≤ t.ctx.sp)

-- Restored over `r`, the registers `r1` are those that the thread was left with, if it was.
abbrev pub ResumesAs : Registers → Registers → Option Registers → Type 0
ResumesAs r r1 none = Unit {0}
ResumesAs r r1 (some s) = IsResumed s r r1

abbrev pub left_with : (Ptr → Option Registers) → Ptr → Registers → Ptr → Option Registers
left_with saved c r q = if q == c then some r else saved q

-- What `PendSV` leaves: one thread runs, is current, and goes on with the registers that it was left
-- with; the registers of all threads are kept.
abbrev pub IsSwitched : (Ptr → Option Registers) → Registers → Words → Registers → Kernel → Type 0
IsSwitched saved r m r1 k =
    (p : Ptr) × (k.current_thread_ctx ≡ some p)
    × OnlyRuns k p
    × ResumesAs r r1 (saved p)
    × AllKept m k saved

next_context : Words → Registers → Kernel → Option Ptr → Result (Words × Registers × Kernel)
next_context m r k o = elim o [
  | none ↦ stopped null_pointer
  | some q ↦ done (m, restore_context m r (k.threads q).ctx.sp (k.threads q).ctx.exc_return, k)
]
