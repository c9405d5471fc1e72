-- ===== src/Sftp.antt =====
-- The store of sftp/store.go.
pub mod Names
pub mod Addr
pub mod Client
pub mod Object
pub mod Connecting
