-- ===== src/IamRole.antt =====
-- The IAM role provider (iamrole/).
pub mod Moves
pub mod Runs
pub mod Config
pub mod Client
pub mod Attachments
pub mod Existence
pub mod Calls
pub mod Reconcile
pub mod Operations
pub mod Register
pub mod Lifetime
