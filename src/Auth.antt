-- ===== src/Auth.antt =====
-- src/auth/: the lockout after failed logins and the limits on requests.
mod Tests
pub mod Rows
pub mod Interfaces
pub mod Tokens
pub mod TwoFactor
pub mod Passwords
pub mod Login
pub mod ApiKeys
pub mod Registration
pub mod Retry
mod Sample
mod TokenTests
mod AccountTests
mod KeyTests
pub mod LoginRateLimit
pub mod RateLimit
