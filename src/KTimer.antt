-- ===== src/KTimer.antt =====
-- src/ktimer.rs: the timer entity and the reload arithmetic.
pub mod Queue
pub mod Reload
use Prim.Native.String.{String}
use rtsched.Base.{
  ℕ, suc, ◌+◌, ◌-◌, ◌^◌, min, max, Ptr, Option, none, some, Bool, true, false, leb, ltb, ◌==◌,
  if◌then◌else◌, u64_max, saturating_add64,
}

abbrev pub expire_never : ℕ
expire_never = u64_max

-- `SchedulerTimerPort` of src/arch: both platforms have a 24-bit reload register.
abbrev pub reload_min : ℕ
reload_min = 1

abbrev pub reload_max : ℕ
reload_max = 2 ^ 24 - 1

pub record RtTiming : Type 0 where
  pub period_ticks : ℕ
  pub relative_deadline_ticks : ℕ
  pub budget_ticks : ℕ

abbrev pub from_period : ℕ → RtTiming
from_period p = record { period_ticks = p; relative_deadline_ticks = p; budget_ticks = p }

-- The tree links of the entity are the timer queue's sequences.
pub record KTimerEntity : Type 0 where
  pub expire_at : ℕ
  pub active : Bool
  pub timing : RtTiming

abbrev pub new_with_timing : ℕ → RtTiming → KTimerEntity
new_with_timing expire_ticks timing = record {
  expire_at = expire_ticks;
  active = true;
  timing = timing;
}

abbrev pub set_expire_at : ℕ → KTimerEntity → KTimerEntity
set_expire_at t e = record e { expire_at = t }

abbrev pub set_expire_after : ℕ → ℕ → KTimerEntity → KTimerEntity
set_expire_after now ticks e = record e { expire_at = saturating_add64 now ticks }

unfoldable pub remaining_at : ℕ → KTimerEntity → ℕ
remaining_at now e =
    if e.expire_at == expire_never then reload_max else min (e.expire_at - now) reload_max

abbrev pub is_expired_at : ℕ → KTimerEntity → Bool
is_expired_at now e = leb e.expire_at now

-- The rest of an `RtKTimer`, which begins with its entity and so shares the entity's address.
pub record RtKTimer : Type 0 where
  pub name : String
  pub miss_cnt : ℕ
  pub thread_ctx : Option Ptr

-- `RtKTimer::new_with_timing` and `RtKTimer::new`: the entity, due at its relative deadline, and the
-- rest of the struct.
abbrev pub new_rt_with_timing : RtTiming → Option Ptr → String → KTimerEntity × RtKTimer
new_rt_with_timing timing thread_ctx name = (
  new_with_timing timing.relative_deadline_ticks timing,
  record { name = name; miss_cnt = 0; thread_ctx = thread_ctx },
)

abbrev pub new_rt : ℕ → Option Ptr → String → KTimerEntity × RtKTimer
new_rt period_ticks = new_rt_with_timing (from_period period_ticks)

-- The entities that `CfsKTimer::new` and `WaitKTimer::new` build.
abbrev pub new_cfs : (period_ticks execution_ticks : ℕ) → KTimerEntity
new_cfs period_ticks execution_ticks = new_with_timing period_ticks (record {
  period_ticks = period_ticks;
  relative_deadline_ticks = execution_ticks;
  budget_ticks = execution_ticks;
})

abbrev pub new_wait : KTimerEntity
new_wait = record {
  expire_at = expire_never;
  active = false;
  timing = record { period_ticks = 0; relative_deadline_ticks = 0; budget_ticks = 0 };
}

-- `ticks.checked_sub(1).filter(|r| r <= MAX)`
unfoldable pub reload_from_ticks : ℕ → Option ℕ
reload_from_ticks ticks =
    if ticks == 0 then none else if leb (ticks - 1) reload_max then some (ticks - 1) else none

unfoldable pub writable_reload : ℕ → ℕ
writable_reload reload = min (max reload reload_min) reload_max

unfoldable pub programmable_reload_from_ticks : ℕ → ℕ
unfolding reload_from_ticks writable_reload
programmable_reload_from_ticks ticks = writable_reload (elim (reload_from_ticks ticks) [
  | some reload ↦ reload
  | none ↦ if ticks == 0 then 0 else reload_max
])

-- `scheduler_timer_reload_for_entity`, whose entity is the CFS timer or another.
unfoldable pub reload_for_entity : (is_cfs_ktimer : Bool) (now : ℕ) → KTimerEntity → ℕ
unfolding programmable_reload_from_ticks remaining_at
reload_for_entity is_cfs_ktimer now e =
    if is_cfs_ktimer
    then programmable_reload_from_ticks (min (remaining_at now e) e.timing.relative_deadline_ticks)
    else writable_reload (min (e.expire_at - now - 1) reload_max)
