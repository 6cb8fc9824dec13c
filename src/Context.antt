-- ===== src/Context.antt =====
-- The conversation context of pigagent/context: the stored turns, the stores, the recording of a turn, the
-- assembly of the context, and its compression.
pub mod Record
pub mod Memory
pub mod Storage
pub mod Assignment
pub mod Recording
pub mod Assembly
pub mod View
pub mod Compression
pub mod Scenarios
pub mod Numbering
pub mod Recovery
pub mod HotTurns
pub mod Kept
pub mod Fading
pub mod Warm
pub mod Lost
pub mod Again
pub mod Examples
