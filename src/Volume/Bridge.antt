-- ===== src/Volume/Bridge.antt =====
-- The queue of deferred writes: note_write, defer and flush_deferred of PiguguMcpBridge in
-- pigagent/voice/pipecat/mcp_bridge.py. A deferred call is the level that it sets.
use pigugu_server.Common.{
  ℕ, ◌+◌, ◌-◌, ltb, Bool, true, false, ◌&&◌, List, [], ◌∷◌, ◌++◌, if◌then◌else◌, ◌==◌,
}
use pigugu_server.Common.Int.{ℤ}
use pigugu_server.Volume.Device.{Device, Outcome, got, apply}

-- MAX_DEFER_ATTEMPTS
abbrev pub max_defer_attempts : ℕ
max_defer_attempts = 3

pub record Deferred : Type 0 where
  pub seq : ℕ
  pub attempts : ℕ
  pub target : ℤ

pub record Bridge : Type 0 where
  pub write_seq : ℕ
  pub deferred : List Deferred

unfoldable pub note_write : Bridge → Bridge
note_write b = record b { write_seq = b.write_seq + 1 }

unfoldable pub defer : ℤ → ℕ → Bridge → Bridge
defer target seq b = record b {
  deferred =
      b.deferred ++ record { seq = seq; attempts = max_defer_attempts; target = target } ∷ [];
}

abbrev pub is_got : Outcome → Bool
is_got (got n) = true
is_got _ = false

-- a failed call is kept for a later flush, as long as attempts are left
abbrev pub kept : Bool → Deferred → List Deferred
kept requeue e =
    if requeue && ltb 1 e.attempts then record e { attempts = e.attempts - 1 } ∷ [] else []

-- the loop over the queue: the entries that stay, and the levels that were sent
unfoldable pub flush : Device → Bool → ℕ → List Deferred → List Deferred × List ℤ
flush d requeue seq [] = ([], [])
flush d requeue seq (e ∷ es) =
    let rest = flush d requeue seq es in
    let sent = e.target ∷ rest.1 in
    if e.seq == seq
    then if is_got (apply d e.target) then (rest.0, sent) else (kept requeue e ++ rest.0, sent)
    else rest

unfoldable pub flush_deferred : Device → Bool → Bridge → Bridge × List ℤ
unfolding flush
flush_deferred d requeue b =
    let (left, sent) = flush d requeue b.write_seq b.deferred in
    (record b { deferred = left }, sent)
