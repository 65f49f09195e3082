-- ===== src/Quic.antt =====
-- server/quic: the state that the connections of the server share.
pub mod Dict
pub mod Upload
pub mod Download
pub mod Hub
pub mod Receive
