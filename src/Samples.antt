-- ===== src/Samples.antt =====
-- Concrete services, and the theorems at concrete inputs.
mod Names
mod Role
mod Policy
mod Instance
mod Secret
mod Lifetimes
mod Vault
mod Isolation
mod PolicyLifetime
mod Deletion
mod Trust
