-- ===== src/Azure.antt =====
-- azure/store.go
pub mod BlockId
pub mod Upload
pub mod Client
pub mod Store
pub mod Object
pub mod Connecting
