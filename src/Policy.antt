-- ===== src/Policy.antt =====
-- backend/saz/policies: what may be called, how often, at what cost and with which data.
pub mod RateLimiter
pub mod Budget
pub mod Pii
pub mod Engine
pub mod Setup
pub mod Vault
