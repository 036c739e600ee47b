-- ===== src/Platform/Frame/Layout.antt =====
-- What the two initializers of the first stack frame write.
use native.Mathlib.Nat.{mod-eq_of_lt}
use rtsched.Base.{
  ℕ, zero, suc, Ptr, ◌+◌, ◌-◌, ◌*◌, ◌%◌, ◌^◌, ◌≤◌, ◌<◌, ◌≡◌, refl, ap, ◌∙◌, update, arith, some,
  ◌==◌, if◌then◌else◌,
}
use rtsched.Kernel.{ok}
use rtsched.Spawn.{validate_stack, top_of}
use rtsched.Spawn.Created.{validate_stack-fits}
use rtsched.Platform.Frame.{
  Words, push, push_zeros, write_zeros, align_down, init_cortex_m_thread_stack, init_thread_stack,
  exc_return_thread_mode_psp, initial_xpsr_thumb_state,
}

-- The stack that the pushes leave, from a pointer that has room for the frame.
pushed : Words → Ptr → ℕ → ℕ → Words × Ptr
unfolding push push_zeros
pushed m sp entry arg = push_zeros 8 (
    push arg (
      push_zeros 3 (
        push 0
          (push exc_return_thread_mode_psp (push entry (push initial_xpsr_thumb_state (m, sp)))))))

overwritten : Words → Ptr → ℕ → ℕ → Words
unfolding write_zeros
overwritten m frame entry arg =
    update
      (update (update (update (write_zeros 16 m frame) (frame + 32) arg) (frame + 52) 4294967293)
        (frame + 56) entry)
      (frame + 60) 16777216

-- The two stores agree at every address.
same_words :
    (m : Words) (frame : Ptr) (entry arg : ℕ) (a : Ptr)
    → (pushed m (frame + 64) entry arg).0 a ≡ overwritten m frame entry arg a
unfolding pushed overwritten push push_zeros write_zeros
same_words m frame entry arg a = ground arith

same_pointer :
    (m : Words) (frame : Ptr) (entry arg : ℕ) → (pushed m (frame + 64) entry arg).1 ≡ frame
unfolding pushed push push_zeros
same_pointer m frame entry arg = omega arith

-- Where there is room for a frame below the aligned stack pointer, the Cortex-M and the host
-- initializers return the same context and leave the same word at every address.
pub init_cortex_m_thread_stack-init_thread_stack :
    (m : Words) (sp : Ptr) (entry arg : ℕ)
    → 64 ≤ align_down sp
    → ((init_cortex_m_thread_stack m sp entry arg).1 ≡ (init_thread_stack m sp entry arg).1)
      × ((a : Ptr)
          → (init_cortex_m_thread_stack m sp entry arg).0 a
            ≡ (init_thread_stack m sp entry arg).0 a)
unfolding init_cortex_m_thread_stack init_thread_stack pushed overwritten
init_cortex_m_thread_stack-init_thread_stack m sp entry arg room =
    let whole : align_down sp ≡ align_down sp - 64 + 64 = omega arith in
    let at : Ptr → Words × Ptr = λ p. pushed m p (entry % 2 ^ 32) (arg % 2 ^ 32) in
    (
      ap (λ p. record { sp = p % 2 ^ 32; exc_return = exc_return_thread_mode_psp })
          (ap (λ p. (at p).1) whole
            ∙ same_pointer m (align_down sp - 64) (entry % 2 ^ 32) (arg % 2 ^ 32)),
      λ a.
          ap (λ p. (at p).0 a) whole
          ∙ same_words m (align_down sp - 64) (entry % 2 ^ 32) (arg % 2 ^ 32) a,
    )

-- The word at each index of the frame, from low addresses: r4 to r11, r0, r1 to r3, r12, lr, pc and
-- xPSR.
abbrev pub frame_word : ℕ → ℕ → ℕ → ℕ
frame_word entry arg i =
    if i == 8
    then arg
    else if i == 13
    then exc_return_thread_mode_psp
    else if i == 14
    then entry
    else if i == 15
    then initial_xpsr_thumb_state
    else 0

-- The store `m` holds the frame at `frame`, and what `m0` holds elsewhere.
pub record HoldsFrame (m0 m : Words) (frame : Ptr) (entry arg : ℕ) : Type 0 where
  pub words : (i : ℕ) → i < 16 → m (frame + 4 * i) ≡ frame_word entry arg i
  pub below : (a : Ptr) → a < frame → m a ≡ m0 a
  pub above : (a : Ptr) → frame + 64 ≤ a → m a ≡ m0 a

write_zeros-below : (n : ℕ) (m : Words) (p a : Ptr) → a < p → write_zeros n m p a ≡ m a
unfolding write_zeros
write_zeros-below zero m p a h = refl
write_zeros-below (suc n) m p a h =
    write_zeros-below n (update m p 0) (p + 4) a (omega arith) ∙ ground arith

write_zeros-above : (n : ℕ) (m : Words) (p a : Ptr) → p + 4 * n ≤ a → write_zeros n m p a ≡ m a
unfolding write_zeros
write_zeros-above zero m p a h = refl
write_zeros-above (suc n) m p a h =
    write_zeros-above n (update m p 0) (p + 4) a (omega arith) ∙ ground arith

write_zeros_lem : (n : ℕ) (m : Words) (p : Ptr) (i : ℕ) → i < n → write_zeros n m p (p + 4 * i) ≡ 0
unfolding write_zeros
write_zeros_lem zero m p i h = absurd (omega arith)
write_zeros_lem (suc n) m p zero h =
    write_zeros-below n (update m p 0) (p + 4) (p + 4 * 0) (omega arith) ∙ ground arith
write_zeros_lem (suc n) m p (suc i) h =
    let shift : p + 4 * suc i ≡ p + 4 + 4 * i = omega arith in
    ap (write_zeros n (update m p 0) (p + 4)) shift
    ∙ write_zeros_lem n (update m p 0) (p + 4) i (omega arith)

overwritten-HoldsFrame :
    (m : Words) (frame : Ptr) (entry arg : ℕ)
    → HoldsFrame m (overwritten m frame entry arg) frame entry arg
unfolding overwritten
overwritten-HoldsFrame m frame entry arg = record {
  words = λ i h. ground (arith, write_zeros_lem 16 m frame i h);
  below = λ a h. ground (arith, write_zeros-below 16 m frame a h);
  above = λ a h. ground (arith, write_zeros-above 16 m frame a h);
}

pushed-HoldsFrame :
    (m : Words) (frame : Ptr) (entry arg : ℕ)
    → HoldsFrame m (pushed m (frame + 64) entry arg).0 frame entry arg
pushed-HoldsFrame m frame entry arg =
    let same = same_words m frame entry arg in
    let h = overwritten-HoldsFrame m frame entry arg in
    record {
      words = λ i l. same (frame + 4 * i) ∙ h.words i l;
      below = λ a l. same a ∙ h.below a l;
      above = λ a l. same a ∙ h.above a l;
    }

-- A thread's first frame, at the top of a stack that was accepted and does not run over the end of
-- memory, lies within that stack, aligned for the processor: it has the entry as program counter
-- and the argument in r0, and no word outside of it is written.
pub init_cortex_m_thread_stack-HoldsFrame :
    (m : Words) (base words entry arg : ℕ)
    → base + 4 * words < 2 ^ 32
    → validate_stack (record { base = some base; words = words }) ≡ ok tt
    → (base ≤ (init_cortex_m_thread_stack m (top_of base words) entry arg).1.sp)
      × ((init_cortex_m_thread_stack m (top_of base words) entry arg).1.sp + 64 ≡ base + 4 * words)
      × HoldsFrame m
          (init_cortex_m_thread_stack m (top_of base words) entry arg).0
          (init_cortex_m_thread_stack m (top_of base words) entry arg).1.sp
          (entry % 2 ^ 32)
          (arg % 2 ^ 32)
unfolding init_cortex_m_thread_stack pushed
init_cortex_m_thread_stack-HoldsFrame m base words entry arg h v =
    let fits = validate_stack-fits base words h v in
    let whole : top_of base words ≡ base + 4 * words = mod-eq_of_lt h in
    let frame = base + 4 * words - 64 in
    let top : align_down (top_of base words) ≡ frame + 64 = omega arith in
    let at : Ptr → Words × Ptr = λ p. pushed m p (entry % 2 ^ 32) (arg % 2 ^ 32) in
    let sp : (at (align_down (top_of base words))).1 % 2 ^ 32 ≡ frame =
      rw (top, same_pointer m frame (entry % 2 ^ 32) (arg % 2 ^ 32)) (omega arith) in
    (
      omega arith,
      omega arith,
      rw (sp, top) (pushed-HoldsFrame m frame (entry % 2 ^ 32) (arg % 2 ^ 32)),
    )
