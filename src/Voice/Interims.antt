-- ===== src/Voice/Interims.antt =====
-- The buffer of interim transcripts: `InterimBuffer` of pigagent/voice/interims.py. The lock makes each
-- operation one step; the deque drops its oldest entry where it is full.
use pigugu_server.Common.{ℕ, String, List, [], ◌∷◌, ◌++◌, if◌then◌else◌, str_eq, take_last}

pub record InterimBuffer : Type 0 where
  pub deque : List String
  pub maxlen : ℕ

-- InterimBuffer(maxlen)
unfoldable pub empty_buffer : ℕ → InterimBuffer
empty_buffer maxlen = record { deque = []; maxlen = maxlen }

-- deque.append with a maximal length
unfoldable pub append : ℕ → String → List String → List String
append maxlen text xs = take_last maxlen (xs ++ text ∷ [])

unfoldable pub record_text : String → InterimBuffer → InterimBuffer
unfolding append
record_text text b = if str_eq text "" then b else record b { deque = append b.maxlen text b.deque }

-- one step after another, under one lock
unfoldable pub record_many : List String → InterimBuffer → InterimBuffer
record_many [] b = b
record_many (t ∷ ts) b = record_many ts (record_text t b)

unfoldable pub drain : InterimBuffer → List String × InterimBuffer
drain b = (b.deque, record b { deque = [] })

unfoldable pub drain_as_abandoned : InterimBuffer → List String × InterimBuffer
unfolding drain
drain_as_abandoned b = drain b

abbrev pub snapshot : InterimBuffer → List String
snapshot b = b.deque
