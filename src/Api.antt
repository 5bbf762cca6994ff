-- ===== src/Api.antt =====
-- internal/api: the RPC handlers around the service, their authorization, errors and live streams.
pub mod Errors
pub mod Render
pub mod Model
pub mod Auth
pub mod Sessions
pub mod Handlers
pub mod Streams
pub mod Subscriptions
