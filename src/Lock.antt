-- ===== src/Lock.antt =====
-- harness/merge_lock.py: the lock on the merge of a pull request, and the order of merges.
pub mod Records
pub mod Mutex
pub mod History
pub mod Handover
pub mod Frontmatter
pub mod Order
pub mod Guard
mod Samples
