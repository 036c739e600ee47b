-- ===== src/Platform/Cycles.antt =====
-- The cycle counter of src/arch/cm/platform.rs, and its test for a blocking context. What the
-- processor's registers read is given to each function.
use native.Mathlib.Nat.{div-mul-le_self, lt-div-mul-add}
use rtsched.Base.{
  ℕ, ◌+◌, ◌-◌, ◌*◌, ◌/◌, ◌%◌, ◌^◌, ◌≤◌, ◌<◌, ◌≡◌, arith, Bool, true, false, not, ◌&&◌, ◌==◌,
  if◌then◌else◌,
}
use rtsched.Kernel.{Kernel}
use rtsched.Kernel.Access.{ticks_per_ms}

-- `DWT_ELAPSE_START_CYCLE` is passed and returned.
unfoldable pub init_dwt_cycle_counter :
    (has_cycle_counter cycle_counter_enabled : Bool) (cycle_count start : ℕ) → Bool × ℕ
init_dwt_cycle_counter has_cycle_counter cycle_counter_enabled cycle_count start =
    if not has_cycle_counter
    then (false, start)
    else if not cycle_counter_enabled
    then (false, start)
    else (true, cycle_count)

abbrev pub reset_elapse_counter : (cycle_count : ℕ) → ℕ
reset_elapse_counter cycle_count = cycle_count

-- `wrapping_sub` of 32-bit words.
unfoldable pub elapse_cycles : (cycle_count start : ℕ) → ℕ
elapse_cycles cycle_count start = (cycle_count + 2 ^ 32 - start) % 2 ^ 32

unfoldable pub msec_from_cycles : Kernel → ℕ → ℕ
msec_from_cycles k cycles = if ticks_per_ms k == 0 then 0 else cycles / ticks_per_ms k

unfoldable pub elapse_msec_since : Kernel → (cycle_count start : ℕ) → ℕ
unfolding elapse_cycles msec_from_cycles
elapse_msec_since k cycle_count start = msec_from_cycles k (elapse_cycles cycle_count start)

-- Thread mode with every interrupt enabled.
unfoldable pub blocking_context_available :
    (in_thread_mode primask_active faultmask_active : Bool) (basepri : ℕ) → Bool
blocking_context_available in_thread_mode primask_active faultmask_active basepri =
    in_thread_mode && primask_active && (basepri == 0) && faultmask_active

elapse_cycles_lem :
    (from to : ℕ)
    → from ≤ to
    → to < from + 2 ^ 32
    → elapse_cycles (to % 2 ^ 32) (from % 2 ^ 32) ≡ to - from
unfolding elapse_cycles
elapse_cycles_lem from to h l = omega arith

-- Between two readings of the 32-bit counter, less than 2 ^ 32 cycles apart, `elapse_msec_since`
-- gives the whole milliseconds that have passed, however the counter wrapped around.
pub elapse_msec_since-bounds :
    (k : Kernel) (from to : ℕ)
    → 0 < ticks_per_ms k
    → from ≤ to
    → to < from + 2 ^ 32
    → (elapse_msec_since k (to % 2 ^ 32) (from % 2 ^ 32) * ticks_per_ms k ≤ to - from)
      × (to - from < (elapse_msec_since k (to % 2 ^ 32) (from % 2 ^ 32) + 1) * ticks_per_ms k)
unfolding elapse_msec_since msec_from_cycles
elapse_msec_since-bounds k from to pos h l =
    let cycles = elapse_cycles_lem from to h l in
    let ticks = ticks_per_ms k in
    let low = div-mul-le_self (to - from) ticks in
    let high = lt-div-mul-add {a = to - from} pos in
    let clocked : (ticks == 0) ≡ false = ground arith in
    rw (cycles, clocked, msec_from_cycles) (low, omega (arith, high))
