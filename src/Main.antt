-- ===== src/Main.antt =====
-- Targetd/main.py: the request handler.
pub mod Rpc
pub mod Methods
pub mod Mutex
pub mod Config
pub mod Start
pub mod Daemon
