-- ===== src/Push.antt =====
-- internal/push: hints to the browsers of Approvers, and where they may be sent.
pub mod Address
pub mod Endpoint
pub mod Deliver
