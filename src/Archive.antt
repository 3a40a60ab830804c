-- ===== src/Archive.antt =====
-- The writer of volumes: internal/archive/packer.go.
pub mod Hashing
pub mod Pack
