-- ===== src/Agent.antt =====
-- The agent runtime (agents/_runtime/src): the loop of one task, its tools, its kill-switch and its
-- risk scores.
pub mod KillSwitch
pub mod Risk
pub mod Explained
pub mod Settlement
pub mod Task
pub mod Server
pub mod Bodies
pub mod Ollama
pub mod Calls
