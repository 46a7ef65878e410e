-- ===== src/Service/Policy.antt =====
-- Policy enforcement (internal/service/policy.go). `Images` has the rules on image references,
-- `Docker` those on Docker features and capabilities; here are the rules that they are part of.
pub mod Images
pub mod Docker
pub mod Profiles
pub mod Lifecycle
