-- ===== src/IamPolicy.antt =====
-- The IAM policy provider (iampolicy/).
pub mod Config
pub mod Client
pub mod Calls
pub mod Documents
pub mod Existence
pub mod Versions
pub mod Operations
pub mod Register
pub mod Lifetime
