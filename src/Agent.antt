-- ===== src/Agent.antt =====
-- The agent's loop (pigagent/core/agent): the messages and their sanitation, the execution of tools, the
-- loop over the steps, and the interrupts.
pub mod Messages
pub mod Sanitize
pub mod SanitizeResults
pub mod Executor
pub mod Runner
pub mod RunResults
pub mod Responses
pub mod LoopAnswered
pub mod Answered
pub mod Stream
pub mod StreamLoop
pub mod StreamResults
pub mod Interrupts
pub mod InterruptResults
pub mod Examples
