-- ===== src/Store.antt =====
-- internal/store: the tables of Grant Requests and Grants, and the operations on them.
pub mod Model
pub mod Rows
pub mod Requests
pub mod Grants
pub mod Invariant
pub mod Revoked
pub mod Evolution
pub mod Keys
pub mod Advance
pub mod RoundTrip
pub mod Sessions
pub mod Subscriptions
