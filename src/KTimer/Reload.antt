-- ===== src/KTimer/Reload.antt =====
-- What the scheduler programs into the 24-bit reload register.
use rtsched.Base.{ℕ, ◌+◌, ◌-◌, ◌≤◌, ◌<◌, ◌≡◌, Bool, true, false, min, max, arith}
use rtsched.KTimer.{KTimerEntity, reload_min, reload_max, reload_for_entity, expire_never}

-- The interval of `reload + 1` ticks up to the timer's next event, as far as the register reaches.
abbrev pub interval : Bool → ℕ → KTimerEntity → ℕ
interval true now e = min (min (e.expire_at - now) reload_max) e.timing.relative_deadline_ticks
interval false now e = min (e.expire_at - now) (reload_max + 1)

-- For a timer with a finite expiry the register value is writable, and the interrupt comes after
-- exactly the interval to its next event, cut to the register's range and at least two ticks: for
-- the CFS timer the event is the end of its slice or its expiry, for the others their expiry.
pub reload_for_entity-interval :
    (is_cfs_ktimer : Bool) (now : ℕ) (e : KTimerEntity)
    → e.expire_at < expire_never
    → (reload_for_entity is_cfs_ktimer now e + 1 ≡ max 2 (interval is_cfs_ktimer now e))
      × (reload_min ≤ reload_for_entity is_cfs_ktimer now e)
      × (reload_for_entity is_cfs_ktimer now e ≤ reload_max)
unfolding reload_for_entity
reload_for_entity-interval true now e h = ground arith
reload_for_entity-interval false now e h = ground arith
