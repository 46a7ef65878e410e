-- ===== src/Auth.antt =====
-- Who may do what (internal/auth/identity.go).
pub mod Identity
pub mod Permissions
