-- ===== src/Platform/Frame.antt =====
-- The initial stack frame of a thread, as src/arch/cm/platform.rs and src/arch/host/platform.rs
-- write it. A store maps the address of a 32-bit word to the word.
pub mod Layout
use rtsched.Base.{ℕ, zero, suc, Ptr, ◌+◌, ◌-◌, ◌*◌, ◌/◌, ◌%◌, ◌^◌, update}
use rtsched.Spawn.{InitialThreadContext, stack_alignment, initial_frame_words}

abbrev pub Words : Type 0
Words = Ptr → ℕ

abbrev pub initial_xpsr_thumb_state : ℕ
initial_xpsr_thumb_state = 16777216

abbrev pub exc_return_thread_mode_psp : ℕ
exc_return_thread_mode_psp = 4294967293

-- `sp & !(ALIGNMENT - 1)`, the alignment being a power of two.
abbrev pub align_down : Ptr → Ptr
align_down sp = (sp / stack_alignment) * stack_alignment

-- `sp = sp.sub(1); *sp = word`
unfoldable pub push : ℕ → Words × Ptr → Words × Ptr
push word (m, sp) = (update m (sp - 4) word, sp - 4)

unfoldable pub push_zeros : ℕ → Words × Ptr → Words × Ptr
unfolding push
push_zeros zero s = s
push_zeros (suc n) s = push_zeros n (push 0 s)

-- The first five pushes are the end of the hardware frame: xPSR, pc, lr and r12, then r3 to r1, r0,
-- and the eight registers that the switch restores.
unfoldable pub init_cortex_m_thread_stack : Words → Ptr → ℕ → ℕ → Words × InitialThreadContext
unfolding push push_zeros
init_cortex_m_thread_stack m sp entry arg =
    let s0 = push initial_xpsr_thumb_state (m, align_down sp) in
    let s1 = push (entry % 2 ^ 32) s0 in
    let s2 = push exc_return_thread_mode_psp s1 in
    let s3 = push 0 s2 in
    let s4 = push_zeros 3 s3 in
    let s5 = push (arg % 2 ^ 32) s4 in
    let s6 = push_zeros 8 s5 in
    (s6.0, record { sp = s6.1 % 2 ^ 32; exc_return = exc_return_thread_mode_psp })

-- `write_bytes(frame, 0, n)`, by words.
unfoldable pub write_zeros : ℕ → Words → Ptr → Words
write_zeros zero m p = m
write_zeros (suc n) m p = write_zeros n (update m p 0) (p + 4)

-- The host writes the words at their places in the frame.
unfoldable pub init_thread_stack : Words → Ptr → ℕ → ℕ → Words × InitialThreadContext
unfolding write_zeros
init_thread_stack m sp entry arg =
    let frame = align_down sp - 4 * initial_frame_words in
    let m0 = write_zeros initial_frame_words m frame in
    let m1 = update m0 (frame + 4 * 8) (arg % 2 ^ 32) in
    let m2 = update m1 (frame + 4 * 13) 4294967293 in
    let m3 = update m2 (frame + 4 * 14) (entry % 2 ^ 32) in
    let m4 = update m3 (frame + 4 * 15) 16777216 in
    (m4, record { sp = frame % 2 ^ 32; exc_return = 4294967293 })
