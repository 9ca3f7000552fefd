-- ===== src/Backends.antt =====
-- targetd/backends: the storage back ends behind the block and the file system module.
pub mod Interface
pub mod Lvm
pub mod Zfs
pub mod Btrfs
