-- ===== src/Platform.antt =====
-- The ports of src/arch: what the Cortex-M and the host backends do for the scheduler.
pub mod Frame
pub mod Switch
pub mod Boot
pub mod Cycles
pub mod Builders
