-- ===== src/Volume.antt =====
-- The volume of the toy by voice: the tool (pigagent/tools/volume.py) and the queue of writes that wait for
-- the end of a reply (pigagent/voice/pipecat/mcp_bridge.py).
pub mod Device
pub mod Bridge
pub mod Tool
pub mod Honesty
pub mod Flushes
pub mod Examples
