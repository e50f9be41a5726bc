-- ===== src/RateLimit.antt =====
-- internal/ratelimit: response rate limiting. The credit accounts (Account), the slip cadence
-- (Slip), the classification of responses (Classify), the exempt list (Exempt), the account table
-- (Table) and the limiter that joins them (Limiter).
pub mod Float64
pub mod Account
pub mod Slip
pub mod Classify
pub mod Exempt
pub mod Table
pub mod Limiter
pub mod Writer
mod Tests
