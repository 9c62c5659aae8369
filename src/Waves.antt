-- ===== src/Waves.antt =====
-- harness/parallel_wave.py: which implementation tasks may run side by side.
pub mod Tasks
pub mod Scopes
pub mod Planner
pub mod Header
pub mod Section
pub mod Repair
mod Samples
mod FileSamples
