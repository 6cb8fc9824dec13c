-- ===== src/Volume/Flushes.antt =====
-- The writes that wait: commands of pigagent/tools/volume.py and flushes of
-- pigagent/voice/pipecat/mcp_bridge.py, one after another.
use pigugu_server.Common.{
  ℕ, suc, ◌+◌, ◌≤◌, ◌<◌, ◌≡◌, ◌≢◌, refl, Bool, true, Option, none, some, List, [], ◌∷◌, arith, All,
  All-append, Bool-cases, inl, inr, ltb, ◌==◌, ◌&&◌, ==_iff,
}
use pigugu_server.Volume.Device.{Device, apply}
use pigugu_server.Volume.Bridge.{
  Bridge, Deferred, note_write, defer, flush, flush_deferred, kept, is_got, max_defer_attempts,
}
use pigugu_server.Volume.Tool.{
  Action, Value, Plan, ends, audible, aims, plan, carry_out, volume_handler, is_zero,
}

-- no write waits for a command that is still to come, and none has more attempts than it began with
abbrev pub IsQueued : Bridge → Type 0
IsQueued b =
    All (λ (e : Deferred). (e.seq ≤ b.write_seq) × (e.attempts ≤ max_defer_attempts)) b.deferred

IsQueued-later :
    (n m : ℕ) (es : List Deferred)
    → n ≤ m
    → All (λ (e : Deferred). (e.seq ≤ n) × (e.attempts ≤ max_defer_attempts)) es
    → All (λ (e : Deferred). (e.seq ≤ m) × (e.attempts ≤ max_defer_attempts)) es
IsQueued-later n m [] le h = tt
IsQueued-later n m (e ∷ es) le h = ((omega arith, h.0.1), IsQueued-later n m es le h.1)

carry_out-IsQueued :
    (d : Device) (p : Plan) (b : Bridge) → IsQueued b → IsQueued (carry_out d p b).0
unfolding carry_out note_write defer
carry_out-IsQueued d (ends r) b h = h
carry_out-IsQueued d (audible n) b h =
    IsQueued-later b.write_seq (b.write_seq + 1) b.deferred (omega arith) h
carry_out-IsQueued d (aims n note) b h = elim (Bool-cases (is_zero n)) [
  | inl e ↦ rw e (
      All-append (λ (e : Deferred). (e.seq ≤ b.write_seq + 1) × (e.attempts ≤ max_defer_attempts))
        b.deferred _ (IsQueued-later b.write_seq (b.write_seq + 1) b.deferred (omega arith) h)
        ((omega arith, omega arith), tt))
  | inr e ↦ rw e (IsQueued-later b.write_seq (b.write_seq + 1) b.deferred (omega arith) h)
]

-- A command keeps the queue in order.
pub volume_handler-IsQueued :
    (o : Option Device) (a : Action) (v : Value) (b : Bridge)
    → IsQueued b
    → IsQueued (volume_handler o a v b).0
unfolding volume_handler
volume_handler-IsQueued none a v b h = h
volume_handler-IsQueued (some d) a v b h = carry_out-IsQueued d (plan d a v) b h

flush-stale :
    (d : Device) (requeue : Bool) (seq : ℕ) (es : List Deferred)
    → All (λ (e : Deferred). e.seq < seq) es
    → flush d requeue seq es ≡ ([], [])
unfolding flush
flush-stale d requeue seq [] h = refl
flush-stale d requeue seq (e ∷ es) h = elim (Bool-cases (e.seq == seq)) [
  | inl k ↦ absurd (omega (arith, (==_iff e.seq seq).0 k, h.0))
  | inr k ↦ rw (k, flush) (flush-stale d requeue seq es h.1)
]

older :
    (n : ℕ) (es : List Deferred)
    → All (λ (e : Deferred). (e.seq ≤ n) × (e.attempts ≤ max_defer_attempts)) es
    → All (λ (e : Deferred). e.seq < n + 1) es
older n [] h = tt
older n (e ∷ es) h = (omega (arith, h.0.0), older n es h.1)

sent_some :
    (d : Device) (p : Plan) (b : Bridge)
    → (carry_out d p b).2 ≢ []
    → IsQueued b
    → flush_deferred d true (carry_out d p b).0
      ≡ (record ((carry_out d p b).0) { deferred = [] }, [])
unfolding carry_out note_write flush_deferred defer
sent_some d (ends r) b some_sent h = absurd (some_sent refl)
sent_some d (audible n) b some_sent h = absurd (some_sent refl)
sent_some d (aims n note) b some_sent h = elim (Bool-cases (is_zero n)) [
  | inl e ↦ absurd ((rw e at some_sent) refl)
  | inr e ↦
      rw e (rw (flush-stale d true (b.write_seq + 1) b.deferred (older b.write_seq b.deferred h)))
]

-- A command that sends a level to the device supersedes every write that waits, also where the device refuses the
-- level or does not answer: the next flush sends nothing, and the queue is empty after it.
pub sent_supersedes :
    (d : Device) (a : Action) (v : Value) (b : Bridge)
    → IsQueued b
    → (volume_handler (some d) a v b).2 ≢ []
    → let b' = (volume_handler (some d) a v b).0 in
      flush_deferred d true b' ≡ (record b' { deferred = [] }, [])
unfolding volume_handler
sent_supersedes d a v b h some_sent = sent_some d (plan d a v) b some_sent h

abbrev AtMost : ℕ → List Deferred → Type 0
AtMost n es = All (λ (e : Deferred). e.attempts ≤ n) es

kept-AtMost :
    (n : ℕ) (requeue : Bool) (e : Deferred) → e.attempts ≤ suc n → AtMost n (kept requeue e)
kept-AtMost n requeue e h = elim (Bool-cases (requeue && ltb 1 e.attempts)) [
  | inl k ↦ rw k (omega arith, tt)
  | inr k ↦ rw k tt
]

flush-AtMost :
    (d : Device) (requeue : Bool) (seq n : ℕ) (es : List Deferred)
    → AtMost (suc n) es
    → AtMost n (flush d requeue seq es).0
unfolding flush
flush-AtMost d requeue seq n [] h = tt
flush-AtMost d requeue seq n (e ∷ es) h = elim (Bool-cases (e.seq == seq)) [
  | inr k ↦ rw (k, flush) (flush-AtMost d requeue seq n es h.1)
  | inl k ↦ elim (Bool-cases (is_got (apply d e.target))) [
    | inl g ↦ rw (k, g, flush) (flush-AtMost d requeue seq n es h.1)
    | inr g ↦
        rw (k, g, flush)
          (All-append (λ (e : Deferred). e.attempts ≤ n) (kept requeue e) _
            (kept-AtMost n requeue e h.0) (flush-AtMost d requeue seq n es h.1))
  ]
]

-- with one attempt left, a flush is the last
kept-last : (requeue : Bool) (e : Deferred) → e.attempts ≤ 1 → kept requeue e ≡ []
kept-last requeue e h = elim (Bool-cases (requeue && ltb 1 e.attempts)) [
  | inl k ↦ absurd (grind arith)
  | inr k ↦ rw k refl
]

flush-last :
    (d : Device) (requeue : Bool) (seq : ℕ) (es : List Deferred)
    → AtMost 1 es
    → (flush d requeue seq es).0 ≡ []
unfolding flush
flush-last d requeue seq [] h = refl
flush-last d requeue seq (e ∷ es) h = elim (Bool-cases (e.seq == seq)) [
  | inr k ↦ rw (k, flush) (flush-last d requeue seq es h.1)
  | inl k ↦ elim (Bool-cases (is_got (apply d e.target))) [
    | inl g ↦ rw (k, g, flush) (flush-last d requeue seq es h.1)
    | inr g ↦ rw (k, g, flush) (rw (kept-last requeue e h.0) (flush-last d requeue seq es h.1))
  ]
]

-- A write that waits is tried at most three times: whatever the device answers, the queue is empty after three
-- flushes with no command between them.
pub three_flushes :
    (d₁ d₂ d₃ : Device) (b : Bridge)
    → IsQueued b
    → let b₁ = (flush_deferred d₁ true b).0 in
      let b₂ = (flush_deferred d₂ true b₁).0 in (flush_deferred d₃ true b₂).0.deferred ≡ []
unfolding flush_deferred
three_flushes d₁ d₂ d₃ b h = flush-last d₃ true b.write_seq _ (
    flush-AtMost d₂ true b.write_seq 1 _
      (flush-AtMost d₁ true b.write_seq 2 b.deferred (three b.deferred h)))
  where
    three :
        (es : List Deferred)
        → All (λ (e : Deferred). (e.seq ≤ b.write_seq) × (e.attempts ≤ max_defer_attempts)) es
        → AtMost 3 es
    three [] k = tt
    three (e ∷ es) k = (k.0.1, three es k.1)
