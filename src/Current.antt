-- ===== src/Current.antt =====
-- What src/thread.rs tells about the thread that the scheduler has selected, and the runtime that an RT
-- thread records.
use rtsched.Base.{◌≡◌, arith, if◌then◌else◌, ℕ, Ptr, Option, none, some, Bool, true, false}
use rtsched.Thread.{is_rt}
use rtsched.Kernel.{Kernel}
use rtsched.Kernel.Access.{kind, set_runtime}

abbrev pub current_thread : Kernel → Option Ptr
current_thread k = k.current_thread_ctx

abbrev pub current_thread_id : Kernel → Option ℕ
current_thread_id k = elim k.current_thread_ctx [ none ↦ none | some p ↦ some (k.threads p).ctx.id ]

abbrev pub set_rt_thread_start_time : Kernel → ℕ → Kernel × Bool
set_rt_thread_start_time k start_time = elim k.current_thread_ctx [
  | none ↦ (k, false)
  | some p ↦ elim (is_rt (kind k p)) [
    | true ↦ (set_runtime k p start_time, true)
    | false ↦ (k, false)
  ]
]

abbrev pub current_rt_thread_runtime : Kernel → Option ℕ
current_rt_thread_runtime k = elim k.current_thread_ctx [
  | none ↦ none
  | some p ↦ elim (is_rt (kind k p)) [ true ↦ some (k.threads p).runtime | false ↦ none ]
]

-- The recorded start time is what the runtime reads, exactly where a current RT thread takes it.
set_rt_thread_start_time-runtime :
    (k : Kernel) (s : ℕ)
    → current_rt_thread_runtime (set_rt_thread_start_time k s).0
      ≡ (if (set_rt_thread_start_time k s).1 then some s else none)
set_rt_thread_start_time-runtime k s = ground arith
