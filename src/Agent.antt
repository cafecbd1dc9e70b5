-- ===== src/Agent.antt =====
-- cmd/reach-agent: what the agent on a machine decides without its system: the host keys that it
-- pins, the titles of its process, and the choices of its updater.
pub mod HostKeys
pub mod Titles
pub mod Binary
