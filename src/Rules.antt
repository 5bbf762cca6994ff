-- ===== src/Rules.antt =====
-- internal/grants/rules.go: Grantable Rules, and which Permission Items they let through.
pub mod Model
pub mod Pattern
pub mod Concrete
pub mod Capability
pub mod Validate
pub mod Resolve
