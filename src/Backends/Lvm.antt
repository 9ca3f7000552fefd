-- ===== src/Backends/Lvm.antt =====
-- targetd/backends/lvm.py: volume groups and thin pools.
pub mod Names
pub mod Select
pub mod Volumes
