-- ===== src/Api.antt =====
-- api: the HTTP layer.
pub mod Errors
pub mod Auth
pub mod Webhooks
pub mod Routes
pub mod Socket
pub mod Stream
