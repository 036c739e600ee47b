-- ===== src/Platform/Boot/Started.antt =====
-- What holds when the idle thread starts.
use Prim.Native.String.{String}
use rtsched.Base.{
  ℕ, Ptr, ◌≡◌, refl, arith, ◌+◌, ◌*◌, ◌%◌, ◌^◌, ◌<◌, ap, ap₂, ◌∙◌, subst, update_self, zero, suc,
  false, ◌==◌, none, some, true, List, [], ◌∷◌,
}
use rtsched.Thread.{Thread, set_state, running, idle, is_idle, is_cfs}
use rtsched.Kernel.{Kernel, Returns, ok, Result, done, ◌>>=◌}
use rtsched.Kernel.Access.{kind, set_thread_state}
use rtsched.Spawn.{
  validate_stack, spawn_idle_thread, validate_thread_storage, top_of, fresh_thread, common_ctx,
  put_thread,
}
use rtsched.Sched.{register_idle_thread}
use rtsched.Sched.Running.{IsScheduling, OnlyRuns, NoOtherRuns, has_next_thread}
use rtsched.Platform.Frame.{Words, init_cortex_m_thread_stack, exc_return_thread_mode_psp}
use rtsched.Platform.Frame.Layout.{init_cortex_m_thread_stack-HoldsFrame, HoldsFrame}
use rtsched.Platform.Switch.{Registers, sv_call, thread_sp, load_words}
use rtsched.Platform.Switch
use rtsched.Platform.Boot.{spawn_main_thread}

-- The thread `p` is the idle thread and the only one that runs, and `schedule` can be called.
pub record IsStarted (k : Kernel) (p : Ptr) : Type 0 where
  pub only : OnlyRuns k p
  pub started : k.scheduler_started ≡ true
  pub scheduling : IsScheduling k p p

-- The processor is to enter `entry` on the process stack, with the frame that ends at `top`: the
-- program counter is the seventh word of what the hardware unstacks.
pub record Enters (m : Words) (r : Registers) (top entry : ℕ) : Type 0 where
  pub lr : r.lr ≡ exc_return_thread_mode_psp
  pub psp : r.psp + 32 ≡ top
  pub registers : r.callee_saved ≡ 0 ∷ 0 ∷ 0 ∷ 0 ∷ 0 ∷ 0 ∷ 0 ∷ 0 ∷ []
  pub argument : m r.psp ≡ 0
  pub program_counter : m (r.psp + 24) ≡ entry

-- The kernel that `SVCall` finds, after the registration of an idle thread.
abbrev starting : Kernel → Ptr → Kernel
starting k p = record (set_thread_state (record k { idle_thread_ctx = some p }) p running) {
  scheduler_started = false;
  current_thread_is_cfs = is_cfs (kind k p);
}

register_idle_thread-spawn :
    {A : Type 0} (k : Kernel) (p : Ptr) (f : Kernel × Ptr → Result A)
    → is_idle (kind k p) ≡ true
    → (register_idle_thread k p >>= λ k'. Switch.spawn_main_thread k' p >>= f) ≡ f (starting k p, p)
unfolding register_idle_thread Switch.spawn_main_thread
register_idle_thread-spawn k p f h =
    let same : (p == p) ≡ true = ground arith in rw (h, h, same) refl

zeros : ℕ → List ℕ
zeros zero = []
zeros (suc n) = 0 ∷ zeros n

load_zeros :
    (n : ℕ) (m : Words) (p : Ptr)
    → ((i : ℕ) → i < n → m (p + 4 * i) ≡ 0)
    → load_words n m p ≡ zeros n
unfolding load_words zeros
load_zeros zero m p h = refl
load_zeros (suc n) m p h =
    ap₂ (λ x xs. x ∷ xs) (ap m (omega arith) ∙ h 0 (omega arith))
      (load_zeros n m (p + 4) λ i l.
        let shift : p + 4 + 4 * i ≡ p + 4 * suc i = omega arith in
        ap m shift ∙ h (suc i) (omega arith))

sv_call-Enters :
    (m0 m : Words) (r : Registers) (k : Kernel) (p : Ptr) (entry sp : ℕ)
    → ((k.threads p).ctx.sp ≡ sp)
    → ((k.threads p).ctx.exc_return ≡ exc_return_thread_mode_psp)
    → HoldsFrame m0 m sp entry 0
    → Enters m (sv_call m r k p).0 (sp + 64) entry
unfolding sv_call zeros
sv_call-Enters m0 m r k p entry sp e l f =
    rw (e, l)
      (record {
        lr = refl;
        psp = omega arith;
        registers = load_zeros 8 m sp λ i h. f.words i (omega arith) ∙ ground arith;
        argument = f.words 8 (omega arith);
        program_counter = ap m (omega arith) ∙ f.words 14 (omega arith);
      })

starting-IsStarted :
    (m : Words) (r : Registers) (k : Kernel) (p : Ptr)
    → NoOtherRuns k p
    → has_next_thread k ≡ true
    → IsStarted (sv_call m r (starting k p) p).1 p
unfolding sv_call
starting-IsStarted m r k p alone next = record {
  only = λ q. ground (arith, alone q);
  started = refl;
  scheduling = record {
    current = refl;
    alive = ground arith;
    alone = λ q. ground (arith, alone q);
    idle = refl;
    linked = next;
  };
}

-- Given a stack that is accepted and does not run over the end of memory, where no thread but `p` is
-- in the running state and a selected RT timer has a thread, `spawn_main_thread` with storage `p`
-- returns into the idle thread `p`: it enters `entry` with a null argument, zeroed registers and an
-- empty stack. The idle thread is then registered, current and the only one that runs, and the
-- scheduler is started, in the state that `schedule` needs.
pub spawn_main_thread-IsStarted :
    (m : Words) (r : Registers) (k : Kernel) (name : String) (entry : ℕ) (p : Ptr)
    → (base words : ℕ) → base + 4 * words < 2 ^ 32
    → validate_stack (record { base = some base; words = words }) ≡ ok tt
    → NoOtherRuns k p
    → has_next_thread k ≡ true
    → Returns
        (λ s. Enters s.0 s.1 (base + 4 * words) (entry % 2 ^ 32) × IsStarted s.2 p)
        (spawn_main_thread m r k name entry (some p) (record { base = some base; words = words }))
unfolding spawn_main_thread spawn_idle_thread validate_thread_storage
spawn_main_thread-IsStarted m r k name entry p base words h v alone next =
    let frame = init_cortex_m_thread_stack m (top_of base words) entry 0 in
    let fits = init_cortex_m_thread_stack-HoldsFrame m base words entry 0 h v in
    let idle_thread = fresh_thread (common_ctx k frame.1 name idle) 0 none in
    let written = update_self k.threads p idle_thread in
    let k1 = put_thread k p idle_thread in
    let running_thread = update_self k1.threads p (set_state running (k1.threads p)) in
    let context_sp : Thread → ℕ = λ t. t.ctx.sp in
    let context_exc_return : Thread → ℕ = λ t. t.ctx.exc_return in
    let enter : Kernel × Ptr → Result (Words × Registers × Kernel) =
      λ x. done (frame.0, (sv_call frame.0 r x.0 x.1).0, (sv_call frame.0 r x.0 x.1).1) in
    rw (v, register_idle_thread-spawn k1 p enter (ap (λ t. is_idle t.ctx.kind) written))
      (
        subst (λ top. Enters frame.0 (sv_call frame.0 r (starting k1 p) p).0 top (entry % 2 ^ 32))
            fits.1
            (sv_call-Enters m frame.0 r (starting k1 p) p (entry % 2 ^ 32) frame.1.sp
              (ap context_sp running_thread ∙ ap context_sp written)
              (ap context_exc_return running_thread ∙ ap context_exc_return written) fits.2),
        starting-IsStarted frame.0 r k1 p (λ q. ground (arith, alone q)) next,
      )
