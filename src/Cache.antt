-- ===== src/Cache.antt =====
-- harness/provider_failure_cache.py: the failures of providers that one chain of tasks remembers.
pub mod Records
pub mod Failures
pub mod Scope
pub mod Store
pub mod Memory
pub mod Checks
pub mod Receipts
pub mod Changes
mod Samples
