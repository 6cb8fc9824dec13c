-- ===== src/Volume/Device.antt =====
-- What the device answers to a call of one of its tools: `call_tool` of
-- pigagent/voice/pipecat/mcp_bridge.py with `_read_device_volume` and `_apply` of pigagent/tools/volume.py.
-- The device is a parameter: an answer for each call that a command makes.
use pigugu_server.Common.{String}
use pigugu_server.Common.Int.{ℤ}

-- what a call gives: a level, an answer without a level, one that cannot be read, a refusal (McpToolError), or
-- silence (McpToolTimeout)
pub data Answer : Type 0 where
  level : ℤ → Answer
  bare : Answer
  unreadable : Answer
  refused : String → Answer
  silent : Answer

-- the answers to the calls of one command, in their order: the status, the write, and the status once more
pub record Device : Type 0 where
  pub status : Answer
  pub set_volume : ℤ → Answer
  pub read_back : Answer

-- a level, or an exception
pub data Outcome : Type 0 where
  got : ℤ → Outcome
  not_readable : Outcome
  tool_error : String → Outcome
  timed_out : Outcome

-- _read_device_volume: the status must hold a level
unfoldable pub read_level : Answer → Outcome
read_level (level n) = got n
read_level bare = not_readable
read_level unreadable = not_readable
read_level (refused m) = tool_error m
read_level silent = timed_out

abbrev pub or_target : ℤ → Outcome → Outcome
or_target target (got n) = got n
or_target target _ = got target

-- _apply, by the answer to the write: without a level, the status is read once more, and where that fails the
-- target is reported
unfoldable pub applied : Device → ℤ → Answer → Outcome
unfolding read_level
applied d target (level n) = got n
applied d target bare = or_target target (read_level d.read_back)
applied d target unreadable = or_target target (read_level d.read_back)
applied d target (refused m) = tool_error m
applied d target silent = timed_out

unfoldable pub apply : Device → ℤ → Outcome
unfolding applied
apply d target = applied d target (d.set_volume target)
