-- ===== src/RunQueue/Vruntime.antt =====
-- The virtual-time arithmetic of src/runq.rs.
use native.Mathlib.Nat.{
  div-le_of_le-mul, mul-le-mul, mod-eq_of_lt, mul-div_left, mul-le-mul_left, div-mul-le_self,
  le-div_iff_mul-le,
}
use rtsched.Base.{ℕ, ◌*◌, ◌/◌, ◌%◌, ◌^◌, ◌≤◌, ◌<◌, ◌≡◌, inl, inr, Bool-cases, ◌==◌, arith, u32_max}
use rtsched.RunQueue.{cfs_vruntime_delta}

no_overflow : (a b : ℕ) → a ≤ u32_max → b ≤ u32_max → a * b % 2 ^ 64 ≡ a * b
no_overflow a b h g =
    let small : a * b ≤ u32_max * u32_max = mul-le-mul h g in mod-eq_of_lt (omega (arith, small))

-- For 32-bit elapsed time and a 32-bit priority sum, not 0, that counts the thread's priority, the
-- charge is the exact quotient, without wrap-around, and no more than the time that has passed.
pub cfs_vruntime_delta-bounds :
    (elapsed priority sum : ℕ)
    → elapsed ≤ u32_max
    → priority ≤ sum
    → sum ≤ u32_max
    → 0 < sum
    → (cfs_vruntime_delta elapsed priority sum ≡ elapsed * priority / sum)
      × (cfs_vruntime_delta elapsed priority sum ≤ elapsed)
unfolding cfs_vruntime_delta
cfs_vruntime_delta-bounds elapsed priority sum e p s pos =
    let plain = no_overflow elapsed priority e (omega arith) in
    let upper = mul-le-mul_left elapsed p in
    let small : elapsed * priority / sum ≤ elapsed = div-le_of_le-mul sum (omega (arith, upper)) in
    ground (arith, plain, small)

-- A thread alone in the sum is charged the time that has passed.
pub cfs_vruntime_delta-alone :
    (elapsed priority : ℕ)
    → elapsed ≤ u32_max
    → priority ≤ u32_max
    → 0 < priority
    → cfs_vruntime_delta elapsed priority priority ≡ elapsed
unfolding cfs_vruntime_delta
cfs_vruntime_delta-alone elapsed priority e p pos =
    let plain = no_overflow elapsed priority e p in
    let whole = mul-div_left elapsed {n = priority} pos in ground (arith, plain, whole)

-- Over the same time, 32-bit as the priorities are, a thread with a greater priority number is charged
-- at least as much virtual time.
pub cfs_vruntime_delta_mono :
    (elapsed priority priority' sum : ℕ)
    → elapsed ≤ u32_max
    → priority ≤ priority'
    → priority' ≤ u32_max
    → cfs_vruntime_delta elapsed priority sum ≤ cfs_vruntime_delta elapsed priority' sum
unfolding cfs_vruntime_delta
cfs_vruntime_delta_mono elapsed priority priority' sum e le p = elim (Bool-cases (sum == 0)) [
  | inl z ↦ ground arith
  | inr z ↦
      let low = no_overflow elapsed priority e (omega arith) in
      let high = no_overflow elapsed priority' e p in
      let more = mul-le-mul_left elapsed le in
      rw (z, low, high)
        ((le-div_iff_mul-le (let pos : 0 < sum = ground arith in pos)).1
          (omega (arith, more, div-mul-le_self (elapsed * priority) sum)))
]
