-- ===== src/Trace/Timing.antt =====
-- The cycle timing of the path from SysTick to PendSV: the statics of src/diagnostics/trace.rs that
-- the feature `sched-isr-timing` adds, and the code that it adds to `PendSV` in
-- src/arch/cm/ctx_switch.rs.
pub mod Summary
use rtsched.Base.{ℕ, ◌+◌, ◌-◌, ◌%◌, ◌^◌, ◌==◌, ltb, if◌then◌else◌}

pub record Timing : Type 0 where
  pub enabled : ℕ
  pub armed : ℕ
  pub start_cycle : ℕ
  pub last_ticks : ℕ
  pub min_ticks : ℕ
  pub max_ticks : ℕ
  pub samples : ℕ
  pub advance_ktimers_last_ticks : ℕ
  pub advance_ktimers_max_ticks : ℕ
  pub dispatch_expired_ktimer_last_ticks : ℕ
  pub dispatch_expired_ktimer_max_ticks : ℕ

-- The `SchedIsrTiming` that a caller reads.
pub record SchedIsrTiming : Type 0 where
  pub samples : ℕ
  pub last_ticks : ℕ
  pub min_ticks : ℕ
  pub max_ticks : ℕ
  pub advance_ktimers_last_ticks : ℕ
  pub advance_ktimers_max_ticks : ℕ
  pub dispatch_expired_ktimer_last_ticks : ℕ
  pub dispatch_expired_ktimer_max_ticks : ℕ

-- The cycle count is read before.
unfoldable pub mark_sched_tick_to_pendsv_start : ℕ → Timing → Timing
mark_sched_tick_to_pendsv_start cycle t = record t { enabled = 1; start_cycle = cycle }

unfoldable pub arm_sched_tick_to_pendsv_sample : Timing → Timing
arm_sched_tick_to_pendsv_sample t = if t.enabled == 0 then t else record t { armed = 1 }

-- The new values of a pair of statics, given the old maximum.
abbrev pub record_last_and_max : (max ticks : ℕ) → ℕ × ℕ
record_last_and_max max ticks = (ticks, if ltb max ticks then ticks else max)

unfoldable pub record_sched_tick_ktimer_timing : ℕ → ℕ → Timing → Timing
record_sched_tick_ktimer_timing advance dispatch t =
    let a = record_last_and_max t.advance_ktimers_max_ticks advance in
    let d = record_last_and_max t.dispatch_expired_ktimer_max_ticks dispatch in
    record t {
      advance_ktimers_last_ticks = a.0;
      advance_ktimers_max_ticks = a.1;
      dispatch_expired_ktimer_last_ticks = d.0;
      dispatch_expired_ktimer_max_ticks = d.1;
    }

-- What `PendSV` does at its end, at the cycle count it reads: `subs`, `adds` and the comparisons are
-- on 32-bit words, and a minimum of 0 is none yet.
unfoldable pub record_pend_sv_sample : ℕ → Timing → Timing
record_pend_sv_sample cycle t =
    if t.armed == 0
    then t
    else (let ticks = (cycle + 2 ^ 32 - t.start_cycle) % 2 ^ 32 in
        record t {
          armed = 0;
          last_ticks = ticks;
          samples = (t.samples + 1) % 2 ^ 32;
          max_ticks = if ltb t.max_ticks ticks then ticks else t.max_ticks;
          min_ticks =
              if t.min_ticks == 0
              then ticks
              else if ltb ticks t.min_ticks
              then ticks
              else t.min_ticks;
        })

abbrev pub sched_tick_to_pendsv_timing : Timing → SchedIsrTiming
sched_tick_to_pendsv_timing t = record {
  samples = t.samples;
  last_ticks = t.last_ticks;
  min_ticks = t.min_ticks;
  max_ticks = t.max_ticks;
  advance_ktimers_last_ticks = t.advance_ktimers_last_ticks;
  advance_ktimers_max_ticks = t.advance_ktimers_max_ticks;
  dispatch_expired_ktimer_last_ticks = t.dispatch_expired_ktimer_last_ticks;
  dispatch_expired_ktimer_max_ticks = t.dispatch_expired_ktimer_max_ticks;
}

unfoldable pub reset_sched_tick_to_pendsv_timing : Timing → Timing
reset_sched_tick_to_pendsv_timing t = record {
  enabled = t.enabled;
  armed = 0;
  start_cycle = 0;
  last_ticks = 0;
  min_ticks = 0;
  max_ticks = 0;
  samples = 0;
  advance_ktimers_last_ticks = 0;
  advance_ktimers_max_ticks = 0;
  dispatch_expired_ktimer_last_ticks = 0;
  dispatch_expired_ktimer_max_ticks = 0;
}

abbrev pub reset_sched_tick_to_pendsv_min_ticks : Timing → Timing
reset_sched_tick_to_pendsv_min_ticks t = record t { min_ticks = 0 }

abbrev pub reset_sched_tick_to_pendsv_max_ticks : Timing → Timing
reset_sched_tick_to_pendsv_max_ticks t = record t { max_ticks = 0 }

abbrev pub reset_sched_tick_to_pendsv_min_max_ticks : Timing → Timing
reset_sched_tick_to_pendsv_min_max_ticks t = record t { min_ticks = 0; max_ticks = 0 }
