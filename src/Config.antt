-- ===== src/Config.antt =====
-- internal/config: the configuration file and the secret files that it names.
pub mod Model
pub mod Login
pub mod Policy
pub mod Load
pub mod Accepted
