-- ===== src/Examples.antt =====
-- Tests on concrete inputs, and the theorems at inputs that meet their hypotheses.
mod Files
mod Uploads
mod Downloads
mod Hub
mod Transactions
mod FileEnds
mod Fixture
mod Codec
mod Control
mod Send
mod Delivery
mod Sync
mod Receive
mod Retry
mod Queue
mod Groups
mod Auth
