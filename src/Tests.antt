-- ===== src/Tests.antt =====
-- Tests of the model, and the theorems applied to a small board: three CFS threads and the idle
-- thread, one RT thread, and their timers.
pub mod Board
pub mod Scheduling
pub mod Queues
pub mod Blocking
pub mod Trees
pub mod Platform
pub mod Diagnostics
pub mod Suspended
