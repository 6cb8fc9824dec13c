-- ===== src/Volume/Tool.antt =====
-- The tool that changes the volume: `_volume_handler` of pigagent/tools/volume.py. The texts of its messages
-- are constructors.
use pigugu_server.Common.{
  ℕ, ◌+◌, min, max, leb, ltb, String, Bool, false, Option, none, some, List, [], ◌∷◌, if◌then◌else◌,
  ◌==◌,
}
use pigugu_server.Common.Int.{ℤ, pos, negsuc, pos_part, neg_part, sub_ℕ, clamp_percent}
use pigugu_server.Volume.Device.{
  Device, Outcome, got, not_readable, tool_error, timed_out, read_level, apply,
}
use pigugu_server.Volume.Bridge.{Bridge, note_write, defer}

pub data Action : Type 0 where
  set increase decrease mute unmute : Action
  other : String → Action

-- the argument `value`: not given, a whole number, a text that `int` reads, the empty text, or what else `int` does
-- not read
pub data Value : Type 0 where
  absent : Value
  whole numeral : ℤ → Value
  empty_text not_a_number : Value

pub data Failure : Type 0 where
  no_device needs_value at_maximum at_minimum device_silent : Failure
  unknown_action : String → Failure
  device_refused : String → Failure

-- the messages of a success
pub data Note : Type 0 where
  set_to limited_to increased_by decreased_by unmuted_at already_at : ℤ → Note
  increased_to_maximum decreased_to_minimum muted : Note

pub data Result : Type 0 where
  failed : Failure → Option ℤ → Result
  success : ℤ → Note → Result

-- UNMUTE_LEVEL
abbrev pub unmute_level : ℤ
unmute_level = pos 70

-- _step: nothing, the empty text and zero count as the default, but not the text of a zero; `none` is a value that
-- `int` does not read
unfoldable pub step_of : Value → Option ℕ
step_of absent = some 5
step_of not_a_number = none
step_of empty_text = some 5
step_of (numeral n) = some (max 1 (min (pos_part n) 100))
step_of (whole (negsuc n)) = some 1
step_of (whole (pos n)) = if n == 0 then some 5 else some (max 1 (min n 100))

abbrev pub is_zero : ℤ → Bool
is_zero n = pos_part n + neg_part n == 0

abbrev pub is_maximum : ℤ → Bool
is_maximum n = pos_part n == 100

-- what an action makes of the level that was read: it ends, or it has a target with its message
pub data Plan : Type 0 where
  ends : Result → Plan
  audible : ℤ → Plan
  aims : ℤ → Note → Plan

abbrev pub raises : Outcome → Plan
raises (got n) = ends (failed device_silent none)
raises not_readable = ends (failed device_silent none)
raises (tool_error m) = ends (failed (device_refused m) none)
raises timed_out = ends (failed device_silent none)

abbrev pub same_level : ℤ → ℕ → Bool
same_level (pos n) m = n == m
same_level (negsuc n) m = false

abbrev pub aim_at : ℤ → Plan
aim_at raw =
    let target = clamp_percent raw in
    if same_level raw target
    then aims (pos target) (set_to (pos target))
    else aims (pos target) (limited_to (pos target))

unfoldable pub plan_set : Value → Plan
plan_set absent = ends (failed needs_value none)
plan_set not_a_number = ends (failed device_silent none)
plan_set empty_text = ends (failed device_silent none)
plan_set (whole raw) = aim_at raw
plan_set (numeral raw) = aim_at raw

-- min(current + step, 100)
unfoldable pub raised : ℤ → ℕ → ℤ
raised current step =
    if leb (pos_part current + step) (100 + neg_part current)
    then sub_ℕ (pos_part current + step) (neg_part current)
    else pos 100

-- max(current - step, 0)
unfoldable pub lowered : ℤ → ℕ → ℤ
lowered current step = pos (pos_part (sub_ℕ (pos_part current) (neg_part current + step)))

abbrev pub aim_up : ℤ → Option ℕ → Plan
aim_up current none = ends (failed device_silent none)
aim_up current (some step) =
    let target = raised current step in
    if is_maximum target
    then aims target increased_to_maximum
    else aims target (increased_by (pos step))

abbrev pub aim_down : ℤ → Option ℕ → Plan
aim_down current none = ends (failed device_silent none)
aim_down current (some step) =
    let target = lowered current step in
    if is_zero target
    then aims target decreased_to_minimum
    else aims target (decreased_by (pos step))

unfoldable pub plan_increase : Value → Outcome → Plan
unfolding raised step_of
plan_increase v (got current) =
    if leb 100 (pos_part current)
    then ends (failed at_maximum (some current))
    else aim_up current (step_of v)
plan_increase v o = raises o

unfoldable pub plan_decrease : Value → Outcome → Plan
unfolding lowered step_of
plan_decrease v (got current) =
    if pos_part current == 0
    then ends (failed at_minimum (some current))
    else aim_down current (step_of v)
plan_decrease v o = raises o

unfoldable pub plan_unmute : Outcome → Plan
plan_unmute (got current) =
    if ltb 0 (pos_part current)
    then audible current
    else aims unmute_level (unmuted_at unmute_level)
plan_unmute o = raises o

unfoldable pub plan : Device → Action → Value → Plan
unfolding plan_set plan_increase plan_decrease plan_unmute read_level
plan d set v = plan_set v
plan d increase v = plan_increase v (read_level d.status)
plan d decrease v = plan_decrease v (read_level d.status)
plan d mute v = aims (pos 0) muted
plan d unmute v = plan_unmute (read_level d.status)
plan d (other a) v = ends (failed (unknown_action a) none)

abbrev pub reported : Note → Outcome → Result
reported note (got n) = success n note
reported note not_readable = failed device_silent none
reported note (tool_error m) = failed (device_refused m) none
reported note timed_out = failed device_silent none

-- the plan is carried out: a write of zero waits for the end of the reply, any other goes out at once. The
-- results are the bridge, what is reported, and the levels that were sent
unfoldable pub carry_out : Device → Plan → Bridge → Bridge × Result × List ℤ
carry_out d (ends r) b = (b, r, [])
carry_out d (audible current) b = (note_write b, success current (already_at current), [])
carry_out d (aims target note) b =
    let b' = note_write b in
    if is_zero target
    then (defer target b'.write_seq b', success target note, [])
    else (b', reported note (apply d target), target ∷ [])

-- _volume_handler, with or without a device at the session
unfoldable pub volume_handler : Option Device → Action → Value → Bridge → Bridge × Result × List ℤ
unfolding plan carry_out
volume_handler none action value b = (b, failed no_device none, [])
volume_handler (some d) action value b = carry_out d (plan d action value) b
