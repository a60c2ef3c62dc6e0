-- ===== src/Policy.antt =====
-- policy.go
pub mod Or
pub mod Session
