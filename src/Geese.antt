-- ===== src/Geese.antt =====
-- src/geese: what the master and the workers share.
pub mod Ratelimit
pub mod Signing
pub mod Urlsign
pub mod Feedticket
pub mod TenantState
pub mod State
pub mod Stratum
