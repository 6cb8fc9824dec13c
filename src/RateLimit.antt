-- ===== src/RateLimit.antt =====
-- The rate limiter of the provisioning endpoints: `RateLimiter` of api/core/rate_limit.py.
pub mod Limiter
pub mod Window
pub mod Refusal
pub mod Examples
