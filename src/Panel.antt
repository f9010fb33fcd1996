-- ===== src/Panel.antt =====
-- internal/panel: the protection of the panel's public authentication endpoints.
pub mod RegistrationProof
pub mod Failures
pub mod Endpoint
pub mod PasswordWork
pub mod Protector
