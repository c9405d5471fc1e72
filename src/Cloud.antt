-- ===== src/Cloud.antt =====
-- The objects of awss3/store.go and azure/store.go: their record, Open, Read, Write, Close and Release,
-- which the two files have in the same words.
pub mod Object
pub mod Opening
pub mod Closing
pub mod Syncing
