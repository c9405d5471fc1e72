-- ===== src/Tests.antt =====
-- Runs of the definitions, and the theorems at concrete inputs.
pub mod Values
pub mod Iterators
pub mod Uploads
pub mod Files
pub mod Buckets
pub mod Transfers
pub mod Servers
pub mod Listings
pub mod Writers
pub mod Jobs
pub mod Clouds
pub mod Containers
pub mod Pipes
pub mod Drivers
pub mod Copies
pub mod Directories
