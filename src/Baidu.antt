-- ===== src/Baidu.antt =====
-- The remote client: internal/baidu/uploader.go. One module for each of its concerns.
pub mod Concurrency
pub mod Retry
pub mod Pool
pub mod Upload
pub mod Verify
pub mod Checksum
pub mod Blocks
pub mod Listing
