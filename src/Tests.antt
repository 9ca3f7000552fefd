-- ===== src/Tests.antt =====
-- Runs of the models, and the theorems at concrete inputs.
mod Nfs
mod Zfs
mod Lvm
mod Groups
mod Block
mod Parts
mod Daemon
mod Destroy
mod Client
mod Exports
mod Creation
mod Fs
mod Setup
mod Btrfs
mod Store
mod Requests
mod Mutex
mod Start
