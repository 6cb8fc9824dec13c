-- ===== src/Binding/Speaker.antt =====
-- The loudness of a device as the App sees it: the messages of a device about it (api/modules/device/iot.py), and
-- `get_device_volume` and `set_device_volume` of api/modules/device/service.py. A level and a time are numbers where
-- the message holds a number; `normal` is `strip().lower()`. The state that a request reads is the one at the poll
-- that ends its wait. The replies, which Redis keeps for five minutes, belong to one request each.
use pigugu_server.Common.{
  ℕ, ◌+◌, String, Bool, true, false, ◌&&◌, Option, none, some, List, [], ◌∷◌, if◌then◌else◌, ltb,
  str_eq, find,
}
use pigugu_server.Ota.Jobs.{truthy}

-- device.status, device.volume.changed and device.volume.ack
pub data MessageKind : Type 0 where
  device_status volume_changed volume_ack : MessageKind

pub record DeviceMessage : Type 0 where
  pub kind : MessageKind
  pub hw_id : String
  pub request_id : Option String
  -- the value of a message, and the level in the status document of a device
  pub value : Option ℕ
  pub speaker_volume : Option ℕ
  pub ts : Option ℕ

-- an entry under device:volume, until it expires
pub record Remembered : Type 0 where
  pub hw_id : String
  pub volume : ℕ
  pub ts : Option ℕ
  pub until : ℕ

-- what Redis holds, the latest first
pub record Mailbox : Type 0 where
  pub volumes : List Remembered
  pub statuses : List DeviceMessage
  pub acks : List DeviceMessage

abbrev pub empty_mailbox : Mailbox
empty_mailbox = record { volumes = []; statuses = []; acks = [] }

unfoldable pub remember_volume : ℕ → String → Option ℕ → Option ℕ → Mailbox → Mailbox
remember_volume now hw none ts box = box
remember_volume now hw (some v) ts box = record box {
  volumes = record { hw_id = hw; volume = v; ts = ts; until = now + 86400 } ∷ box.volumes;
}

-- what the App is pushed: the level of a device
unfoldable pub pushed_level : String → Option ℕ → List (String × ℕ)
pushed_level hw none = []
pushed_level hw (some v) = (hw, v) ∷ []

unfoldable pub handle_volume_changed : ℕ → DeviceMessage → Mailbox → Mailbox × List (String × ℕ)
unfolding remember_volume pushed_level
handle_volume_changed now m box =
    (remember_volume now m.hw_id m.value m.ts box, pushed_level m.hw_id m.value)

unfoldable pub handle_volume_ack : ℕ → DeviceMessage → Mailbox → Mailbox × List (String × ℕ)
unfolding remember_volume
handle_volume_ack now m box =
    let kept = record box { acks = m ∷ box.acks } in
    if truthy m.request_id then (remember_volume now m.hw_id m.value m.ts kept, []) else (box, [])

unfoldable pub handle_device_status : ℕ → DeviceMessage → Mailbox → Mailbox × List (String × ℕ)
unfolding remember_volume pushed_level
handle_device_status now m box =
    let kept = if truthy m.request_id then record box { statuses = m ∷ box.statuses } else box in
    (remember_volume now m.hw_id m.speaker_volume m.ts kept, pushed_level m.hw_id m.speaker_volume)

unfoldable pub handle_by : MessageKind → ℕ → DeviceMessage → Mailbox → Mailbox × List (String × ℕ)
unfolding handle_volume_changed handle_volume_ack handle_device_status
handle_by device_status now m box = handle_device_status now m box
handle_by volume_changed now m box = handle_volume_changed now m box
handle_by volume_ack now m box = handle_volume_ack now m box

-- the webhook, for these messages
unfoldable pub handle_message : ℕ → DeviceMessage → Mailbox → Mailbox × List (String × ℕ)
unfolding handle_by
handle_message now m box = handle_by m.kind now m box

-- the messages of a device with their times, the latest first
unfoldable pub mailbox_after : List (ℕ × DeviceMessage) → Mailbox
unfolding handle_message
mailbox_after [] = empty_mailbox
mailbox_after ((now, m) ∷ ms) = (handle_message now m (mailbox_after ms)).0

pub record VolumeResponse : Type 0 where
  pub volume : Option ℕ
  pub stale : Bool
  pub synced_at : Option ℕ

abbrev pub is_reply : String → String → DeviceMessage → Bool
is_reply hw request m =
    str_eq m.hw_id hw && elim m.request_id [ none ↦ false | some r ↦ str_eq r request ]

unfoldable pub volume_or_unknown : Option Remembered → VolumeResponse
volume_or_unknown none = record { volume = none; stale = true; synced_at = none }
volume_or_unknown (some r) = record { volume = some r.volume; stale = true; synced_at = r.ts }

-- _remembered_volume
unfoldable pub remembered_volume : ℕ → String → Mailbox → VolumeResponse
unfolding volume_or_unknown
remembered_volume now hw box =
    volume_or_unknown (find (λ r. str_eq r.hw_id hw && ltb now r.until) box.volumes)

abbrev pub level_of : Option DeviceMessage → Option ℕ
level_of none = none
level_of (some m) = m.speaker_volume

abbrev pub time_of : Option DeviceMessage → Option ℕ
time_of none = none
time_of (some m) = m.ts

unfoldable pub fresh_or : Option ℕ → Option ℕ → VolumeResponse → VolumeResponse
fresh_or none ts fallback = fallback
fresh_or (some v) ts fallback = record { volume = some v; stale = false; synced_at = ts }

unfoldable pub get_device_volume :
    (String → String) → ℕ → String → String → Mailbox → VolumeResponse
unfolding fresh_or remembered_volume
get_device_volume normal now hardware request box =
    let hw = normal hardware in
    let reply = find (is_reply hw request) box.statuses in
    fresh_or (level_of reply) (time_of reply) (remembered_volume now hw box)

-- a confirmation without a level is reported with the level that was asked for
unfoldable pub confirmed : ℕ → Option DeviceMessage → Option VolumeResponse
confirmed volume none = none
confirmed volume (some m) = some (record {
  volume = elim m.value [ none ↦ some volume | some v ↦ some v ];
  stale = false;
  synced_at = m.ts;
})

-- none stands for DeviceUnreachable
unfoldable pub set_device_volume :
    (String → String) → String → String → ℕ → Mailbox → Option VolumeResponse
unfolding confirmed
set_device_volume normal hardware request volume box =
    confirmed volume (find (is_reply (normal hardware) request) box.acks)
