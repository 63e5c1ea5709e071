-- ===== src/Runtime.antt =====
-- src/gatebroker/runtime.py: the parts of the running service that decide something.
pub mod RateLimiter
pub mod Settings
pub mod JwksUrl
pub mod Readiness
pub mod Jwks
pub mod Verify
