-- ===== src/Cred.antt =====
-- cmd/bao-cred: the command that reads credentials and requests Grants.
pub mod Model
pub mod Mapping
pub mod FieldPath
pub mod Render
pub mod Environment
pub mod Options
pub mod Request
pub mod Errors
pub mod Item
pub mod Wait
