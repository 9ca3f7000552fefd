-- ===== src/Backends/Btrfs.antt =====
-- targetd/backends/btrfs.py: subvolumes below `targetd_fs` and `targetd_ss` of a mounted pool.
pub mod Paths
pub mod Snapshots
pub mod Commands
pub mod FileSystems
pub mod Store
