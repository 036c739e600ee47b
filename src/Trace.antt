-- ===== src/Trace.antt =====
-- The state of src/diagnostics/trace.rs: saturating counters, and what the registered hook was
-- called with, newest first.
pub mod Timing
use Prim.Native.String.{String}
use rtsched.Base.{ℕ, ◌+◌, Bool, true, false, Option, List, ◌∷◌, ◌==◌, if◌then◌else◌, u32_max}

pub record TraceThread : Type 0 where
  pub id : ℕ
  pub name : String
  pub is_cfs : Bool

pub data TraceEvent : Type 0 where
  context_switch : Option TraceThread → TraceThread → TraceEvent
  deadline_missed : TraceThread → (runtime_ticks relative_deadline_ticks : ℕ) → TraceEvent
  wakeup : TraceThread → TraceEvent
  yielded : TraceThread → ℕ → TraceEvent

pub record TraceCounters : Type 0 where
  pub context_switches : ℕ
  pub deadline_misses : ℕ
  pub wakeups : ℕ
  pub yields : ℕ

pub record Trace : Type 0 where
  pub hooked : Bool
  pub counters : TraceCounters
  pub events : List TraceEvent

-- `fetch_update(|v| v.checked_add(1))`: the counter stays at its maximum.
unfoldable pub increment : ℕ → ℕ
increment v = if v == u32_max then v else v + 1

abbrev pub emit : TraceEvent → Trace → Trace
emit e t = if t.hooked then record t { events = e ∷ t.events } else t

abbrev pub set_trace_fn : Trace → Trace
set_trace_fn t = record t { hooked = true }

abbrev pub clear_trace_fn : Trace → Trace
clear_trace_fn t = record t { hooked = false }

abbrev pub reset_trace_counters : Trace → Trace
reset_trace_counters t = record t {
  counters = record { context_switches = 0; deadline_misses = 0; wakeups = 0; yields = 0 };
}
