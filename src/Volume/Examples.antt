-- ===== src/Volume/Examples.antt =====
-- Tests and concrete inputs of the volume commands.
use pigugu_server.Common.{◌≡◌, true, some, [], ◌∷◌, arith}
use pigugu_server.Common.Int.{pos}
use pigugu_server.Volume.Device.{Device, level, bare, silent}
use pigugu_server.Volume.Bridge.{Bridge, flush_deferred}
use pigugu_server.Volume.Tool.{increase, absent, volume_handler}
use pigugu_server.Volume.Honesty.{Honest, volume_handler-Honest}
use pigugu_server.Volume.Flushes.{sent_supersedes}

-- a device at the level 40 that answers a write without a level
abbrev a_device : Device
a_device = record { status = level (pos 40); set_volume = λ n. bare; read_back = silent }

-- a device that does not answer
abbrev silent_device : Device
silent_device = record { status = silent; set_volume = λ n. silent; read_back = silent }

-- a bridge with a mute that waits
abbrev muting : Bridge
muting = record { write_seq = 4; deferred = record { seq = 4; attempts = 3; target = pos 0 } ∷ [] }

volume_handler-Honest_example :
    let (b', r, sent) = volume_handler (some a_device) increase absent muting in
    Honest a_device r sent b'
volume_handler-Honest_example = volume_handler-Honest a_device increase absent muting

sent_supersedes_example :
    let b' = (volume_handler (some a_device) increase absent muting).0 in
    flush_deferred a_device true b' ≡ (record b' { deferred = [] }, [])
unfolding volume_handler
sent_supersedes_example =
    sent_supersedes a_device increase absent muting ((omega arith, omega arith), tt) (λ e. cc)
