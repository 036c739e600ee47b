-- ===== src/Platform/Switch/Saved.antt =====
-- Contexts that `PendSV` saves and restores.
use rtsched.Base.{
  ℕ, Ptr, ◌+◌, ◌-◌, ◌*◌, ◌≤◌, ◌<◌, true, false, List, [], ◌∷◌, if◌then◌else◌, update, length, ◌≡◌,
  refl, sym, ap, ap₂, ◌∙◌, subst, arith, Bool-cases, inl, inr,
}
use rtsched.Base.{◌⊎◌}
use rtsched.Platform.Frame.{Words}
use rtsched.Platform.Switch.{
  Registers, store_words, load_words, save_context, restore_context, thread_sp, has_fp_context,
  set_thread_sp,
}

store_words-below :
    (m : Words) (p : Ptr) (ws : List ℕ) (a : Ptr) → a < p → store_words m p ws a ≡ m a
unfolding store_words
store_words-below m p [] a h = refl
store_words-below m p (w ∷ ws) a h =
    store_words-below (update m p w) (p + 4) ws a (omega arith) ∙ ground arith

store_words-above :
    (m : Words) (p : Ptr) (ws : List ℕ) (a : Ptr)
    → p + 4 * length ws ≤ a
    → store_words m p ws a ≡ m a
unfolding store_words
store_words-above m p [] a h = refl
store_words-above m p (w ∷ ws) a h =
    store_words-above (update m p w) (p + 4) ws a (omega arith) ∙ ground arith

-- Loading from a store that still holds what was stored.
load_words-store_words :
    (m m' : Words) (p : Ptr) (ws : List ℕ)
    → ((a : Ptr) → p ≤ a → a < p + 4 * length ws → m' a ≡ store_words m p ws a)
    → load_words (length ws) m' p ≡ ws
unfolding load_words store_words
load_words-store_words m m' p [] same = refl
load_words-store_words m m' p (w ∷ ws) same =
    ap₂ (λ x xs. x ∷ xs)
      (same p (omega arith) (omega arith)
        ∙ store_words-below (update m p w) (p + 4) ws p (omega arith)
        ∙ ground arith)
      (load_words-store_words (update m p w) m' (p + 4) ws
        λ a l h. same a (omega arith) (omega arith))

thread_sp-set_thread_sp : (r : Registers) (sp : Ptr) → thread_sp (set_thread_sp r sp) ≡ sp
thread_sp-set_thread_sp r sp = ground arith

-- The store `m'` holds what `m` holds from `from` up to `to`.
abbrev pub AgreeBetween : Words → Words → Ptr → Ptr → Type 0
AgreeBetween m m' from to = (a : Ptr) → from ≤ a → a < to → m' a ≡ m a

-- The registers `r2`, restored over `r1`, are those of `r`.
pub record IsResumed (r r1 r2 : Registers) : Type 0 where
  pub core : r2.callee_saved ≡ r.callee_saved
  pub fp :
      r2.fp_callee_saved ≡ (if has_fp_context r.lr then r.fp_callee_saved else r1.fp_callee_saved)
  pub stack : thread_sp r2 ≡ thread_sp r
  pub exc_return : r2.lr ≡ r.lr

IsResumed-of_core :
    (m m' : Words) (r r1 : Registers)
    → length r.callee_saved ≡ 8
    → has_fp_context r.lr ≡ false
    → 32 ≤ thread_sp r
    → AgreeBetween
        (store_words m (thread_sp r - 32) r.callee_saved)
        m'
        (thread_sp r - 32)
        (thread_sp r)
    → IsResumed r r1 (restore_context m' r1 (thread_sp r - 32) r.lr)
unfolding restore_context
IsResumed-of_core m m' r r1 n f room same =
    let sp = thread_sp r - 32 in
    let core : load_words 8 m' sp ≡ r.callee_saved =
      ap (λ k. load_words k m' sp) (sym n)
      ∙ load_words-store_words m m' sp r.callee_saved (λ a l h. same a l (omega arith)) in
    record {
      core = ground (arith, core);
      fp = ground arith;
      stack = ground arith;
      exc_return = ground arith;
    }

IsResumed-of_fp :
    (m m' : Words) (r r1 : Registers)
    → length r.callee_saved ≡ 8
    → length r.fp_callee_saved ≡ 16
    → has_fp_context r.lr ≡ true
    → 96 ≤ thread_sp r
    → AgreeBetween
        (store_words
          (store_words m (thread_sp r - 64) r.fp_callee_saved)
          (thread_sp r - 64 - 32)
          r.callee_saved)
        m'
        (thread_sp r - 64 - 32)
        (thread_sp r)
    → IsResumed r r1 (restore_context m' r1 (thread_sp r - 64 - 32) r.lr)
unfolding restore_context
IsResumed-of_fp m m' r r1 n n1 f room same =
    let sp = thread_sp r - 64 - 32 in
    let above : sp + 32 ≡ thread_sp r - 64 = omega arith in
    let fps = store_words m (thread_sp r - 64) r.fp_callee_saved in
    let core : load_words 8 m' sp ≡ r.callee_saved =
      ap (λ k. load_words k m' sp) (sym n)
      ∙ load_words-store_words fps m' sp r.callee_saved (λ a l h. same a l (omega arith)) in
    let fp : load_words 16 m' (sp + 32) ≡ r.fp_callee_saved =
      ap₂ (λ k p. load_words k m' p) (sym n1) above
      ∙ load_words-store_words m m' (thread_sp r - 64) r.fp_callee_saved (λ a l h.
        same a (omega arith) (omega arith)
        ∙ store_words-above fps sp r.callee_saved a (omega arith)) in
    record {
      core = ground (arith, core);
      fp = ground (arith, fp);
      stack = ground arith;
      exc_return = ground arith;
    }

saved_fp :
    (m : Words) (r : Registers)
    → has_fp_context r.lr ≡ true
    → save_context m r ≡ (
      store_words
          (store_words m (thread_sp r - 64) r.fp_callee_saved)
          (thread_sp r - 64 - 32)
          r.callee_saved,
      thread_sp r - 64 - 32,
    )
unfolding save_context
saved_fp m r b = rw b refl

saved_core :
    (m : Words) (r : Registers)
    → has_fp_context r.lr ≡ false
    → save_context m r ≡ (store_words m (thread_sp r - 32) r.callee_saved, thread_sp r - 32)
unfolding save_context
saved_core m r b = rw b refl

-- Saving writes at most the 96 bytes below the stack pointer.
pub save_context-frame :
    (m : Words) (r : Registers) (a : Ptr)
    → length r.callee_saved ≡ 8
    → length r.fp_callee_saved ≡ 16
    → 96 ≤ thread_sp r
    → (a < thread_sp r - 96) ⊎ (thread_sp r ≤ a)
    → (save_context m r).0 a ≡ m a
save_context-frame m r a n n1 room out =
    let at : Words × Ptr → Type 0 = λ s. s.0 a ≡ m a in
    elim (Bool-cases (has_fp_context r.lr)) [
      | inl b ↦
          let fps = store_words m (thread_sp r - 64) r.fp_callee_saved in
          subst at (sym (saved_fp m r b)) (elim out [
            | inl low ↦
                store_words-below fps (thread_sp r - 64 - 32) r.callee_saved a (omega arith)
                ∙ store_words-below m (thread_sp r - 64) r.fp_callee_saved a (omega arith)
            | inr high ↦
                store_words-above fps (thread_sp r - 64 - 32) r.callee_saved a (omega arith)
                ∙ store_words-above m (thread_sp r - 64) r.fp_callee_saved a (omega arith)
          ])
      | inr b ↦ subst at (sym (saved_core m r b)) (elim out [
        | inl low ↦ store_words-below m (thread_sp r - 32) r.callee_saved a (omega arith)
        | inr high ↦ store_words-above m (thread_sp r - 32) r.callee_saved a (omega arith)
      ])
    ]

-- The registers that `PendSV` saves on a thread's stack are those that it restores for this thread
-- later, whatever the registers are by then, if there was room for them and the part of the stack
-- that they were saved to is unchanged: r4 to r11, the stack pointer and lr, and s16 to s31 exactly
-- if lr says that an FP context is active.
pub restore_context-save_context :
    (m m' : Words) (r r1 : Registers)
    → length r.callee_saved ≡ 8
    → length r.fp_callee_saved ≡ 16
    → 96 ≤ thread_sp r
    → AgreeBetween (save_context m r).0 m' (save_context m r).1 (thread_sp r)
    → IsResumed r r1 (restore_context m' r1 (save_context m r).1 r.lr)
restore_context-save_context m m' r r1 n n1 room same =
    let kept : Words × Ptr → Type 0 = λ s. AgreeBetween s.0 m' s.1 (thread_sp r) in
    elim (Bool-cases (has_fp_context r.lr)) [
      | inl b ↦
          let saved = saved_fp m r b in
          rw saved (IsResumed-of_fp m m' r r1 n n1 b room (subst kept saved same))
      | inr b ↦
          let saved = saved_core m r b in
          rw saved (IsResumed-of_core m m' r r1 n b (omega arith) (subst kept saved same))
    ]
