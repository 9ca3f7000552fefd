-- ===== src/Fs.antt =====
-- targetd/fs.py.
pub mod Systems
pub mod Exports
pub mod Setup
pub mod Methods
pub mod Frame
