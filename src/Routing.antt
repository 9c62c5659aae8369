-- ===== src/Routing.antt =====
-- harness/agent_routing.py: which provider runs an agent.
pub mod Config
pub mod Providers
pub mod Stored
mod Samples
