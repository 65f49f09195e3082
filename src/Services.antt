-- ===== src/Services.antt =====
-- server/services: the handlers of the requests.
pub mod Message
pub mod Auth
pub mod Delivery
pub mod Conversation
pub mod Control
pub mod Sync
pub mod File
