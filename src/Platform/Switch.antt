-- ===== src/Platform/Switch.antt =====
-- The exception handlers of src/arch/cm/ctx_switch.rs, which change the thread that the processor
-- runs.
pub mod Saved
pub mod Resumed
use rtsched.Base.{
  ℕ, zero, suc, Ptr, ◌+◌, ◌-◌, ◌*◌, ◌/◌, ◌%◌, Bool, true, false, List, [], ◌∷◌, none, some, ◌==◌,
  ◌&&◌, if◌then◌else◌, update,
}
use rtsched.Thread.{Thread, running, is_idle, is_cfs}
use rtsched.Kernel.{Kernel, Result, done, stopped, ◌>>=◌, null_pointer, thread_is_not_idle}
use rtsched.Kernel.Access.{modify_thread, set_thread_state, kind}
use rtsched.Sched.{schedule, is_idle_thread}
use rtsched.Platform.Frame.{Words}

-- What the handlers save and restore: r4 to r11, s16 to s31, both stack pointers and lr.
pub record Registers : Type 0 where
  pub callee_saved : List ℕ
  pub fp_callee_saved : List ℕ
  pub msp : Ptr
  pub psp : Ptr
  pub lr : ℕ

-- `tst lr, #4`: bit 2 of `EXC_RETURN` tells which stack the thread uses.
abbrev pub uses_msp : ℕ → Bool
uses_msp lr = lr / 4 % 2 == 0

-- `tst lr, #0x10`: bit 4 is clear where an FP context is active.
abbrev pub has_fp_context : ℕ → Bool
has_fp_context lr = lr / 16 % 2 == 0

abbrev pub thread_sp : Registers → Ptr
thread_sp r = if uses_msp r.lr then r.msp else r.psp

abbrev pub set_thread_sp : Registers → Ptr → Registers
set_thread_sp r sp = if uses_msp r.lr then record r { msp = sp } else record r { psp = sp }

-- `stmdb` and `vstmdb` below an address: the lowest register at the lowest address.
unfoldable pub store_words : Words → Ptr → List ℕ → Words
store_words m p [] = m
store_words m p (w ∷ ws) = store_words (update m p w) (p + 4) ws

unfoldable pub load_words : ℕ → Words → Ptr → List ℕ
load_words zero m p = []
load_words (suc n) m p = m p ∷ load_words n m (p + 4)

-- The first part of `PendSV`: the store, and the stack pointer that the thread's context gets.
unfoldable pub save_context : Words → Registers → Words × Ptr
unfolding store_words
save_context m r =
    let sp = thread_sp r in
    if has_fp_context r.lr
    then (
      store_words (store_words m (sp - 64) r.fp_callee_saved) (sp - 64 - 32) r.callee_saved,
      sp - 64 - 32,
    )
    else (store_words m (sp - 32) r.callee_saved, sp - 32)

-- The last part of `PendSV`, from the context of the thread to run.
unfoldable pub restore_context : Words → Registers → Ptr → ℕ → Registers
unfolding load_words
restore_context m r sp exc_return =
    let core = record r { callee_saved = load_words 8 m sp; lr = exc_return } in
    if has_fp_context exc_return
    then set_thread_sp (record core { fp_callee_saved = load_words 16 m (sp + 32) }) (sp + 32 + 64)
    else set_thread_sp core (sp + 32)

abbrev pub set_context : Ptr → ℕ → Thread → Thread
set_context sp exc_return t = record t { ctx = record t.ctx { sp = sp; exc_return = exc_return } }

-- `PendSV` while the thread at `p` is current.
abbrev pub switch_from : Words → Registers → Kernel → Ptr → Result (Words × Registers × Kernel)
switch_from m r k p = do
  let saved = save_context m r
  k' ← schedule (modify_thread k p (set_context saved.1 r.lr))
  elim k'.current_thread_ctx [
    | none ↦ stopped null_pointer
    | some q ↦
        let next = (k'.threads q).ctx in
        done (saved.0, restore_context saved.0 r next.sp next.exc_return, k')
  ]

-- `PendSV`, with the feature `sched-isr-timing` off.
unfoldable pub pend_sv : Words → Registers → Kernel → Result (Words × Registers × Kernel)
unfolding save_context restore_context schedule
pend_sv m r k = elim k.current_thread_ctx [
  | none ↦ stopped null_pointer
  | some p ↦ switch_from m r k p
]

-- The `spawn_main_thread` of this port, up to `svc 0`: the kernel, and `START_THREAD_PTR`.
unfoldable pub spawn_main_thread : Kernel → Ptr → Result (Kernel × Ptr)
spawn_main_thread k thread =
    if is_idle_thread k thread && is_idle (kind k thread)
    then done (
      record (set_thread_state k thread running) {
        scheduler_started = false;
        current_thread_is_cfs = is_cfs (kind k thread);
      },
      thread,
    )
    else stopped thread_is_not_idle

-- `SVCall`, for the thread in `START_THREAD_PTR`. It restores no FP registers.
unfoldable pub sv_call : Words → Registers → Kernel → Ptr → Registers × Kernel
unfolding load_words
sv_call m r k start =
    let next = (k.threads start).ctx in
    (
      set_thread_sp (record r { callee_saved = load_words 8 m next.sp; lr = next.exc_return })
          (next.sp + 32),
      record k { current_thread_ctx = some start; scheduler_started = true },
    )
