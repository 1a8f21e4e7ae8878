-- ===== src/Rds.antt =====
-- The RDS provider (rds/).
pub mod Conversion
pub mod Status
pub mod Config
pub mod Client
pub mod Errors
pub mod Calls
pub mod Operations
pub mod Health
pub mod Register
pub mod Lifetime
