-- ===== src/Binding/Levels.antt =====
-- What a query of a device's level answers: `get_device_volume` of api/modules/device/service.py over the messages of
-- api/modules/device/iot.py.
use pigugu_server.Common.{
  ℕ, ◌+◌, ◌<◌, ◌≡◌, refl, subst, String, Bool, true, false, ◌&&◌, ◌||◌, Option, none, some, List,
  [], ◌∷◌, ltb, lt-ltb, str_eq, find, any, All, All-imp, Bool-cases, Option-cases, inl, inr,
  if_intro, arith, ◌==◌,
}
use text.Mathlib.TextEquality.{eq_iff}
use mathlib.Core.Option.{none-ne-some}
use pigugu_server.Ota.Jobs.{truthy}
use pigugu_server.Binding.Speaker.{
  MessageKind, device_status, volume_changed, volume_ack, DeviceMessage, Remembered, Mailbox,
  remember_volume, handle_volume_changed, handle_volume_ack, handle_device_status, handle_by,
  handle_message, mailbox_after, VolumeResponse, is_reply, volume_or_unknown, remembered_volume,
  level_of, fresh_or, get_device_volume,
}

abbrev pub is_level : Option ℕ → ℕ → Bool
is_level none v = false
is_level (some w) v = w == v

-- a message of the device that carries a level
abbrev pub carries : String → ℕ → ℕ × DeviceMessage → Bool
carries hw v (t, m) = str_eq m.hw_id hw && (is_level m.value v || is_level m.speaker_volume v)

abbrev IsCarried : List (ℕ × DeviceMessage) → String → Option ℕ → Type 0
IsCarried ms hw none = Unit
IsCarried ms hw (some v) = any (carries hw v) ms ≡ true

-- what Redis holds was carried by a message
abbrev IsKnown : List (ℕ × DeviceMessage) → Mailbox → Type 0
IsKnown ms box =
    All (λ (r : Remembered). any (carries r.hw_id r.volume) ms ≡ true) box.volumes
    × All (λ (m : DeviceMessage). IsCarried ms m.hw_id m.speaker_volume) box.statuses

later :
    (e : ℕ × DeviceMessage) (ms : List (ℕ × DeviceMessage)) (hw : String) (o : Option ℕ)
    → IsCarried ms hw o
    → IsCarried (e ∷ ms) hw o
later e ms hw none h = tt
later e ms hw (some v) h = if_intro (λ b. b ≡ true) (carries hw v e) true _ (λ k. refl) (λ k. h)

later-IsKnown :
    (e : ℕ × DeviceMessage) (ms : List (ℕ × DeviceMessage)) (box : Mailbox)
    → IsKnown ms box
    → IsKnown (e ∷ ms) box
later-IsKnown e ms box (h, k) = (
  All-imp _ _ (λ r p. later e ms r.hw_id (some r.volume) p) box.volumes h,
  All-imp _ _ (λ m p. later e ms m.hw_id m.speaker_volume p) box.statuses k,
)

-- a level that a message carries is remembered
remember-IsKnown :
    (ms : List (ℕ × DeviceMessage)) (now : ℕ) (hw : String) (o ts : Option ℕ) (box : Mailbox)
    → IsCarried ms hw o
    → IsKnown ms box
    → IsKnown ms (remember_volume now hw o ts box)
unfolding remember_volume
remember-IsKnown ms now hw none ts box p h = h
remember-IsKnown ms now hw (some v) ts box p (h, k) = ((p, h), k)

str_eq_refl : (t : String) → str_eq t t ≡ true
str_eq_refl t = (eq_iff t t).1 refl

itself : (n : ℕ) → (n == n) ≡ true
itself n = ground arith

or_true : (b : Bool) → (b || true) ≡ true
or_true true = refl
or_true false = refl

-- the two levels of a message are carried by it
value-carried :
    (t : ℕ) (m : DeviceMessage) (ms : List (ℕ × DeviceMessage))
    → IsCarried ((t, m) ∷ ms) m.hw_id m.value
value-carried t m ms = elim (Option-cases m.value) [
  | inl e ↦ rw e tt
  | inr (v, e) ↦ rw (e, str_eq_refl m.hw_id, itself v) refl
]

speaker-carried :
    (t : ℕ) (m : DeviceMessage) (ms : List (ℕ × DeviceMessage))
    → IsCarried ((t, m) ∷ ms) m.hw_id m.speaker_volume
speaker-carried t m ms = elim (Option-cases m.speaker_volume) [
  | inl e ↦ rw e tt
  | inr (v, e) ↦ rw (e, str_eq_refl m.hw_id, itself v, or_true (is_level m.value v)) refl
]

handle-IsKnown :
    (k : MessageKind) (t : ℕ) (m : DeviceMessage) (ms : List (ℕ × DeviceMessage)) (box : Mailbox)
    → IsKnown ((t, m) ∷ ms) box
    → IsKnown ((t, m) ∷ ms) (handle_by k t m box).0
unfolding handle_by handle_volume_changed handle_volume_ack handle_device_status
handle-IsKnown device_status t m ms box (h, k) =
    remember-IsKnown ((t, m) ∷ ms) t m.hw_id m.speaker_volume m.ts _ (speaker-carried t m ms) (
      if_intro (IsKnown ((t, m) ∷ ms)) (truthy m.request_id) _ box
        (λ e. (h, (speaker-carried t m ms, k))) (λ e. (h, k)))
handle-IsKnown volume_changed t m ms box h =
    remember-IsKnown ((t, m) ∷ ms) t m.hw_id m.value m.ts box (value-carried t m ms) h
handle-IsKnown volume_ack t m ms box h =
    if_intro (λ (r : Mailbox × List (String × ℕ)). IsKnown ((t, m) ∷ ms) r.0) (truthy m.request_id)
      _ _ (λ e. remember-IsKnown ((t, m) ∷ ms) t m.hw_id m.value m.ts _ (value-carried t m ms) h)
      (λ e. h)

mailbox_after-IsKnown : (ms : List (ℕ × DeviceMessage)) → IsKnown ms (mailbox_after ms)
unfolding mailbox_after handle_message
mailbox_after-IsKnown [] = (tt, tt)
mailbox_after-IsKnown ((t, m) ∷ ms) =
    handle-IsKnown m.kind t m ms (mailbox_after ms)
      (later-IsKnown (t, m) ms (mailbox_after ms) (mailbox_after-IsKnown ms))

-- what is found has what all have, and passes the test
abbrev AtSome {ℓ} : {A : Type ℓ} → (A → Type 0) → Option A → Type 0
AtSome P none = Unit
AtSome P (some x) = P x

found-All {ℓ} :
    {A : Type ℓ} (P : A → Type 0) (p : A → Bool) (xs : List A) (x : A)
    → All P xs
    → find p xs ≡ some x
    → P x × (p x ≡ true)
found-All P p [] x h e = absurd (none-ne-some x e)
found-All P p (y ∷ xs) x h e = elim (Bool-cases (p y)) [
  | inl k ↦ subst (AtSome (λ z. P z × (p z ≡ true))) (rw k at e) (h.0, k)
  | inr k ↦ found-All P p xs x h.1 (rw k at e)
]

and-left : (a b : Bool) → (a && b) ≡ true → a ≡ true
and-left true b h = refl
and-left false b h = h

remembered-carried :
    (ms : List (ℕ × DeviceMessage)) (now : ℕ) (hw : String) (box : Mailbox) (v : ℕ)
    → IsKnown ms box
    → (remembered_volume now hw box).volume ≡ some v
    → any (carries hw v) ms ≡ true
unfolding remembered_volume volume_or_unknown
remembered-carried ms now hw box v (h, k) e =
    elim (Option-cases
      (find (λ (r : Remembered). str_eq r.hw_id hw && ltb now r.until) box.volumes)) [
        | inl f ↦ absurd (none-ne-some v (rw f at e))
        | inr (r, f) ↦
            let (known, same) =
              found-All (λ (r : Remembered). any (carries r.hw_id r.volume) ms ≡ true)
                (λ (r : Remembered). str_eq r.hw_id hw && ltb now r.until) box.volumes r h f in
            let own : r.hw_id ≡ hw = (eq_iff r.hw_id hw).0 (and-left _ _ same) in
            subst (λ i. any (carries i v) ms ≡ true) own
              (subst (AtSome (λ w. any (carries r.hw_id w) ms ≡ true)) (rw f at e) known)
      ]

fresh_or-carried :
    (ms : List (ℕ × DeviceMessage)) (hw : String) (o ts : Option ℕ) (fallback : VolumeResponse)
    (v : ℕ)
    → IsCarried ms hw o
    → (fallback.volume ≡ some v → any (carries hw v) ms ≡ true)
    → (fresh_or o ts fallback).volume ≡ some v
    → any (carries hw v) ms ≡ true
unfolding fresh_or
fresh_or-carried ms hw none ts fallback v p q h = q h
fresh_or-carried ms hw (some w) ts fallback v p q h =
    subst (AtSome (λ w. any (carries hw w) ms ≡ true)) h p

reply-carried :
    (ms : List (ℕ × DeviceMessage)) (hw request : String) (box : Mailbox)
    → IsKnown ms box
    → IsCarried ms hw (level_of (find (is_reply hw request) box.statuses))
reply-carried ms hw request box (h, k) =
    elim (Option-cases (find (is_reply hw request) box.statuses)) [
      | inl f ↦ rw f tt
      | inr (m, f) ↦
          let (known, same) =
            found-All (λ (m : DeviceMessage). IsCarried ms m.hw_id m.speaker_volume)
              (is_reply hw request) box.statuses m k f in
          rw f (
            subst (λ i. IsCarried ms i m.speaker_volume) ((eq_iff m.hw_id hw).0 (and-left _ _ same))
              known)
    ]

-- A level that get_device_volume answers for a device was carried by a message of this device, in every history of
-- messages: none is invented, whether the answer is fresh or remembered.
pub never_invented :
    (normal : String → String) (now : ℕ) (hardware request : String) (ms : List (ℕ × DeviceMessage))
    (v : ℕ)
    → (get_device_volume normal now hardware request (mailbox_after ms)).volume ≡ some v
    → any (carries (normal hardware) v) ms ≡ true
unfolding get_device_volume
never_invented normal now hardware request ms v h =
    let hw = normal hardware in
    fresh_or-carried ms hw _ _ _ v
      (reply-carried ms hw request (mailbox_after ms) (mailbox_after-IsKnown ms))
      (remembered-carried ms now hw (mailbox_after ms) v (mailbox_after-IsKnown ms)) h

-- After a message that a level changed, a device that does not answer within the next day is shown with this level,
-- and as a remembered one.
pub change_remembered :
    (normal : String → String) (t now v : ℕ) (hardware request : String) (m : DeviceMessage)
    (box : Mailbox)
    → m.kind ≡ volume_changed
    → m.hw_id ≡ normal hardware
    → m.value ≡ some v
    → find (is_reply (normal hardware) request) box.statuses ≡ none
    → now < t + 86400
    → get_device_volume normal now hardware request (handle_message t m box).0
      ≡ record { volume = some v; stale = true; synced_at = m.ts }
unfolding handle_message handle_by handle_volume_changed remember_volume get_device_volume
    remembered_volume volume_or_unknown fresh_or
change_remembered normal t now v hardware request m box kind own level silent soon =
    rw (kind, level, silent, own, str_eq_refl (normal hardware), lt-ltb now (t + 86400) soon) refl
