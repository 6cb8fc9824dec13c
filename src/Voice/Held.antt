-- ===== src/Voice/Held.antt =====
-- The verdict of the echo gate is held: pigagent/voice/pipecat/vad_bridge.py.
use pigugu_server.Common.{
  ℕ, ◌-◌, ◌≤◌, ◌<◌, ◌≡◌, refl, Bool, true, false, ◌&&◌, List, [], ◌∷◌, leb, any, All, Bool-cases,
  inl, inr, arith, leb-lt,
}
use pigugu_server.Voice.EchoGate.{VadBridge, publish_verdict}

-- the verdicts of a detector with their times, the latest first
unfoldable pub publish_all : ℕ → List (ℕ × Bool) → VadBridge → VadBridge
unfolding publish_verdict
publish_all hold [] b = b
publish_all hold ((t, v) ∷ vs) b = publish_verdict hold t v (publish_all hold vs b)

-- times do not go back
abbrev pub IsTimed : List (ℕ × Bool) → Type 0
IsTimed [] = Unit
IsTimed (v ∷ vs) = All (λ (w : ℕ × Bool). w.0 ≤ v.0) vs × IsTimed vs

-- a verdict with voice that is not older than the hold
abbrev pub is_recent : ℕ → ℕ → ℕ × Bool → Bool
is_recent hold now v = v.1 && leb (now - v.0) hold

-- verdicts before an old one are old
none_recent :
    (hold now t : ℕ) (vs : List (ℕ × Bool))
    → hold < now - t
    → All (λ (w : ℕ × Bool). w.0 ≤ t) vs
    → any (is_recent hold now) vs ≡ false
none_recent hold now t [] old h = refl
none_recent hold now t ((u, v) ∷ vs) old (le, h) = ground (arith, none_recent hold now t vs old h)

last_voice-recent :
    (hold now : ℕ) (vs : List (ℕ × Bool)) (b : VadBridge)
    → b.last_voice ≡ 0
    → hold < now
    → IsTimed vs
    → leb (now - (publish_all hold vs b).last_voice) hold ≡ any (is_recent hold now) vs
unfolding publish_all publish_verdict
last_voice-recent hold now [] b zero_yet late h = ground arith
last_voice-recent hold now ((t, false) ∷ vs) b zero_yet late (le, h) =
    last_voice-recent hold now vs b zero_yet late h
last_voice-recent hold now ((t, true) ∷ vs) b zero_yet late (le, h) =
    elim (Bool-cases (leb (now - t) hold)) [
      | inl e ↦ rw e refl
      | inr e ↦ rw (e, none_recent hold now t vs (leb-lt (now - t) hold e) le) refl
    ]

-- After a verdict the gate is open to the user exactly where some verdict with voice, this one or an earlier one, is
-- not older than the hold: from a fresh bridge, with times that do not go back and a clock that is past the hold.
pub voice_is_held :
    (hold now : ℕ) (is_voice : Bool) (vs : List (ℕ × Bool)) (b : VadBridge)
    → b.last_voice ≡ 0
    → hold < now
    → IsTimed ((now, is_voice) ∷ vs)
    → (publish_all hold ((now, is_voice) ∷ vs) b).vad_voice_active
      ≡ any (is_recent hold now) ((now, is_voice) ∷ vs)
unfolding publish_all publish_verdict
voice_is_held hold now is_voice vs b zero_yet late h =
    last_voice-recent hold now ((now, is_voice) ∷ vs) b zero_yet late h
