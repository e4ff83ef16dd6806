-- ===== src/Agent.antt =====
-- tools/k3/agent.py: the session of a task's agent, its lock, the plugin's loop state, and the
-- command lines that a session is started and resumed with.
pub mod Resume
pub mod Session
pub mod Claim
pub mod Argv
pub mod Environment
pub mod Loop
pub mod Paths
pub mod Plan
pub mod Shim
pub mod Start
pub mod Status
pub mod Stop
mod Tests
