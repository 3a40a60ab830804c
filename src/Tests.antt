-- ===== src/Tests.antt =====
-- Concrete runs of the model, and the theorems applied to them.
mod Saves
mod Uploads
mod Volumes
mod Runs
mod Programs
mod Backups
mod Audits
mod Restores
mod Pools
