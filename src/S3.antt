-- ===== src/S3.antt =====
-- The store of awss3/store.go.
pub mod Client
pub mod Store
pub mod Object
pub mod Writer
pub mod Connecting
