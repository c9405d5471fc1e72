-- ===== src/LocalFs.antt =====
-- localfs/store.go
pub mod Object
pub mod Store
pub mod Transfers
