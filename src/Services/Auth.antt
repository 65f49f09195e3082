-- ===== src/Services/Auth.antt =====
-- server/services/auth: sessions in memory, and the answer to a hello.
pub mod Tokens
pub mod Sessions
pub mod Hello
pub mod Named
pub mod Resume
