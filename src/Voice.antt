-- ===== src/Voice.antt =====
-- The voice pipeline's own bookkeeping (pigagent/voice): the segments of a turn, the buffer of interim
-- transcripts, the detector, the record of a turn and the observer that opens and commits the turns.
pub mod Segments
pub mod SegmentResults
pub mod Trailing
pub mod Interims
pub mod InterimResults
pub mod Silero
pub mod Chunks
pub mod Turn
pub mod Commit
pub mod Observer
pub mod Session
pub mod Steps
pub mod Owners
pub mod Committed
pub mod Sounds
pub mod EchoGate
pub mod Held
pub mod Examples
pub mod TurnExamples
