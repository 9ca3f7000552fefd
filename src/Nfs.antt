-- ===== src/Nfs.antt =====
-- targetd/nfs.py: one NFS export (`Export`), and the calls of exportfs (`Nfs`).
pub mod Flags
pub mod Export
pub mod Octal
pub mod Listing
pub mod Exportfs
