-- ===== src/Session.antt =====
-- harness/session_state.py and harness/ledger.py: the state of a session's runs, the transitions that
-- write it and the ledger of each run, and the gate before a step.
pub mod Names
pub mod Records
pub mod Runs
pub mod Lifecycle
pub mod Steps
pub mod Pending
pub mod Runtime
pub mod Transition
pub mod Replay
pub mod Again
pub mod Effects
pub mod Quiet
pub mod QuietCalls
pub mod Blocks
pub mod History
pub mod Clean
pub mod Reach
pub mod Bounds
pub mod Prose
pub mod Gate
pub mod Gates
pub mod Claims
mod Samples
mod GateSamples
