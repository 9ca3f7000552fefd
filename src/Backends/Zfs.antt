-- ===== src/Backends/Zfs.antt =====
-- targetd/backends/zfs.py: datasets as pools, zvols as volumes, datasets as file systems.
pub mod Names
pub mod Command
pub mod Get
pub mod Pools
pub mod Volumes
pub mod FileSystems
