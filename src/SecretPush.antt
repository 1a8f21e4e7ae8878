-- ===== src/SecretPush.antt =====
-- The secret push provider (secretpush/).
pub mod Config
pub mod Client
pub mod Calls
pub mod Build
pub mod Storage
pub mod Kept
pub mod Operations
pub mod Register
pub mod Lifetime
