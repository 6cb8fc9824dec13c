-- ===== src/Roast.antt =====
-- The roast games of the voice agent (pigagent/roast): the session state and its storage, the director
-- and the triggers of a turn, the game modes with their scores.
pub mod State
pub mod Storage
pub mod Judging
pub mod Triggers
pub mod Tick
pub mod Sessions
pub mod Settle
pub mod Settled
pub mod Overlap
pub mod SettleExamples
pub mod Turns
pub mod Endings
pub mod Knockout
pub mod Score
pub mod Activate
pub mod Examples
