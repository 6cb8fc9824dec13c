-- ===== src/RateLimit/Limiter.antt =====
-- A limiter and its `check` (api/core/rate_limit.py). Times are whole seconds of a clock that does not go
-- back; `cutoff = now - window` is compared as `t + window < now`.
use pigugu_server.Common.{
  ℕ, ◌+◌, String, Option, none, some, List, [], ◌∷◌, ◌++◌, if◌then◌else◌, ltb, leb, length,
}
use pigugu_server.Common.Dict
use pigugu_server.Common.Dict.{Dict}

pub record RateLimiter : Type 0 where
  pub max_requests : ℕ
  pub window_seconds : ℕ
  pub buckets : Dict (List ℕ)

-- what `check` answers: it returns, or raises the error 429
pub data Answer : Type 0 where
  passed too_many : Answer

-- the loop that evicts old entries from the front
unfoldable pub evict : ℕ → ℕ → List ℕ → List ℕ
evict window now [] = []
evict window now (t ∷ ts) =
    let rest = evict window now ts in if ltb (t + window) now then rest else t ∷ ts

-- self._buckets[key], a defaultdict
abbrev pub bucket_of : Option (List ℕ) → List ℕ
bucket_of none = []
bucket_of (some b) = b

-- the answer of a check, and the bucket after it
unfoldable pub admit : ℕ → ℕ → ℕ → List ℕ → Answer × List ℕ
unfolding evict
admit max window now bucket =
    let kept = evict window now bucket in
    if leb max (length kept) then (too_many, kept) else (passed, kept ++ now ∷ [])

unfoldable pub check : RateLimiter → String → ℕ → Answer × RateLimiter
check lim key now =
    let (answer, bucket) =
      admit lim.max_requests lim.window_seconds now (bucket_of (Dict.get lim.buckets key)) in
    (answer, record lim { buckets = Dict.put lim.buckets key bucket })

-- RateLimiter(max_requests, window_seconds)
unfoldable pub new : ℕ → ℕ → RateLimiter
new max window = record { max_requests = max; window_seconds = window; buckets = [] }

-- the limiters of the endpoints: a session start per user, a code and the MQTT credentials per session
abbrev pub session_create_limiter : RateLimiter
session_create_limiter = new 10 3600

abbrev pub verify_limiter : RateLimiter
verify_limiter = new 5 300

abbrev pub mqtt_creds_limiter : RateLimiter
mqtt_creds_limiter = new 5 300
