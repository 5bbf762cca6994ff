-- ===== src/Service.antt =====
-- internal/grants/service.go: Grant Requests, decisions and Grants.
pub mod Model
pub mod Exec
pub mod Policy
pub mod Approval
pub mod Decide
pub mod Revoke
pub mod Create
pub mod Sweeps
pub mod Steps
pub mod Discovery
