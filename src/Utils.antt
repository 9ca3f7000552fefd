-- ===== src/Utils.antt =====
-- targetd/utils.py.
pub mod Errors
pub mod Exec
pub mod Keeps
pub mod Part
pub mod Invoke
pub mod Names
pub mod Numbers
pub mod Tarpit
pub mod Items
