-- ===== src/Runner.antt =====
-- harness/story_runner.py: the durable state of a story or epic run.
pub mod Tasks
pub mod Actions
pub mod Marks
pub mod Choice
pub mod Seals
pub mod Turns
pub mod Plan
pub mod Init
mod Samples
