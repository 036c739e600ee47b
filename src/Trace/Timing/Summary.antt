-- ===== src/Trace/Timing/Summary.antt =====
-- What the samples of a run of ticks add up to.
use rtsched.Base.{
  ℕ, ◌+◌, ◌-◌, ◌%◌, ◌^◌, ◌≤◌, ◌<◌, ◌≡◌, refl, sym, subst, arith, List, [], ◌∷◌, map, length, All,
  ◌∈◌, ◌==◌, ltb, if◌then◌else◌, inl, inr, All-imp, All-mem, Bool-cases,
}
use rtsched.Trace.Timing.{
  Timing, mark_sched_tick_to_pendsv_start, arm_sched_tick_to_pendsv_sample, record_pend_sv_sample,
  reset_sched_tick_to_pendsv_timing, sched_tick_to_pendsv_timing, SchedIsrTiming,
}

-- A tick that requests a switch: the cycle counts at its start and in `PendSV`.
abbrev pub run_tick : ℕ × ℕ → Timing → Timing
run_tick p t =
    record_pend_sv_sample p.1
      (arm_sched_tick_to_pendsv_sample (mark_sched_tick_to_pendsv_start p.0 t))

-- The latest tick first.
unfoldable pub run_ticks : List (ℕ × ℕ) → Timing → Timing
run_ticks [] t = reset_sched_tick_to_pendsv_timing t
run_ticks (x ∷ xs) t = run_tick x (run_ticks xs t)

abbrev pub cycles_of : ℕ × ℕ → ℕ
cycles_of p = (p.1 + 2 ^ 32 - p.0) % 2 ^ 32

abbrev pub IsLeast : ℕ → List ℕ → Type 0
IsLeast m xs = (m ∈ xs) × All (λ y. m ≤ y) xs

abbrev pub IsGreatest : ℕ → List ℕ → Type 0
IsGreatest m xs = (m ∈ xs) × All (λ y. y ≤ m) xs

-- The count, the latest, the least and the greatest of the samples, the latest first.
abbrev pub IsSummary : SchedIsrTiming → List ℕ → Type 0
IsSummary t [] = (t.samples ≡ 0) × (t.min_ticks ≡ 0) × (t.max_ticks ≡ 0)
IsSummary t (x ∷ xs) =
    (t.samples ≡ length (x ∷ xs))
    × (t.last_ticks ≡ x)
    × IsLeast t.min_ticks (x ∷ xs)
    × IsGreatest t.max_ticks (x ∷ xs)

IsLeast-if_less :
    (m x : ℕ) (xs : List ℕ)
    → 0 < m
    → IsLeast m xs
    → IsLeast (if m == 0 then x else if ltb x m then x else m) (x ∷ xs)
IsLeast-if_less m x xs pos h = elim (Bool-cases (ltb x m)) [
  | inl b ↦
      let v : (if m == 0 then x else if ltb x m then x else m) ≡ x = ground arith in
      subst (λ v. IsLeast v (x ∷ xs)) (sym v)
        (ground arith, (omega arith, All-imp (λ y l. ground arith) xs h.1))
  | inr b ↦
      let v : (if m == 0 then x else if ltb x m then x else m) ≡ m = ground arith in
      subst (λ v. IsLeast v (x ∷ xs)) (sym v) (ground (arith, h.0), (ground arith, h.1))
]

IsGreatest-if_greater :
    (m x : ℕ) (xs : List ℕ) → IsGreatest m xs → IsGreatest (if ltb m x then x else m) (x ∷ xs)
IsGreatest-if_greater m x xs h = elim (Bool-cases (ltb m x)) [
  | inl b ↦
      let v : (if ltb m x then x else m) ≡ x = ground arith in
      subst (λ v. IsGreatest v (x ∷ xs)) (sym v)
        (ground arith, (omega arith, All-imp (λ y l. ground arith) xs h.1))
  | inr b ↦
      let v : (if ltb m x then x else m) ≡ m = ground arith in
      subst (λ v. IsGreatest v (x ∷ xs)) (sym v) (ground (arith, h.0), (ground arith, h.1))
]

run_tick-IsSummary :
    (p : ℕ × ℕ) (xs : List ℕ) (t : Timing)
    → All (λ x. 0 < x) (cycles_of p ∷ xs)
    → length xs + 1 < 2 ^ 32
    → IsSummary (sched_tick_to_pendsv_timing t) xs
    → IsSummary (sched_tick_to_pendsv_timing (run_tick p t)) (cycles_of p ∷ xs)
unfolding record_pend_sv_sample arm_sched_tick_to_pendsv_sample mark_sched_tick_to_pendsv_start
run_tick-IsSummary p [] t pos short s =
    let x = cycles_of p in
    let count : (t.samples + 1) % 2 ^ 32 ≡ 1 = omega (arith, s.0) in
    let least : (if t.min_ticks == 0 then x else if ltb x t.min_ticks then x else t.min_ticks) ≡ x =
      ground (arith, s.1) in
    let greatest : (if ltb t.max_ticks x then x else t.max_ticks) ≡ x =
      ground (arith, s.2, pos.0) in
    (
      count,
      refl,
      (ground (arith, least), (omega (arith, least), tt)),
      (ground (arith, greatest), (omega (arith, greatest), tt)),
    )
run_tick-IsSummary p (x ∷ xs) t pos short s = (
  rw s.0 (omega arith),
  refl,
  IsLeast-if_less t.min_ticks (cycles_of p) (x ∷ xs)
      (All-mem (λ y. 0 < y) t.min_ticks (x ∷ xs) pos.1 s.2.0) s.2,
  IsGreatest-if_greater t.max_ticks (cycles_of p) (x ∷ xs) s.3,
)

-- After a reset and fewer than 2 ^ 32 ticks that request a switch, each with a positive number of
-- cycles between the two handlers on the 32-bit counter, wrapped or not, the timing that is read has
-- the number of ticks, the cycles of the last one, and the least and the greatest of all.
pub run_ticks-IsSummary :
    (ps : List (ℕ × ℕ)) (t : Timing)
    → All (λ x. 0 < x) (map cycles_of ps)
    → length (map cycles_of ps) < 2 ^ 32
    → IsSummary (sched_tick_to_pendsv_timing (run_ticks ps t)) (map cycles_of ps)
unfolding run_ticks reset_sched_tick_to_pendsv_timing
run_ticks-IsSummary [] t pos short = (refl, refl, refl)
run_ticks-IsSummary (p ∷ ps) t pos short =
    run_tick-IsSummary p (map cycles_of ps) (run_ticks ps t) pos (omega arith)
      (run_ticks-IsSummary ps t pos.1 (omega arith))
