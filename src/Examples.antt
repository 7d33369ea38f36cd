-- ===== src/Examples.antt =====
-- Runs at concrete data, where the conditions of the theorems hold.
mod Stack
pub mod Config
pub mod Tables
mod Roots
pub mod Snapshots
pub mod Upgrades
mod Installs
mod Volumes
mod Sources
mod Btrfs
