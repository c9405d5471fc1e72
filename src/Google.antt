-- ===== src/Google.antt =====
-- The store of google/store.go.
pub mod Client
pub mod Object
pub mod Opening
pub mod Pushing
pub mod Closing
pub mod Store
pub mod TransferJobs
pub mod Connecting
pub mod ApiStore
