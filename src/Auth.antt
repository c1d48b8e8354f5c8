-- ===== src/Auth.antt =====
-- Parts of src/auth: the rate limiter of the OAuth endpoints, the store of host tokens, and the
-- connections of host tokens with the tools that they show.
pub mod RateLimiter
pub mod HostTokens
pub mod Grants
pub mod ConnectionProfile
mod Tests
