-- ===== src/Storage.antt =====
-- server/storage: the tables of storage/sqlite/schema.sql and the repositories over them.
pub mod Db
pub mod Sql
pub mod Untouched
pub mod WriteQueue
pub mod SyncRepo
pub mod SyncEvent
pub mod ReadState
pub mod MessageIntent
pub mod MessageRepo
pub mod ControlWrite
pub mod ConversationRepo
pub mod DeliveryRepo
pub mod FileRepo
pub mod Transaction
