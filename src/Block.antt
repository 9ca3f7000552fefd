-- ===== src/Block.antt =====
-- targetd/block.py: volumes of the block pools, over the back ends.
pub mod Volumes
pub mod AccessGroups
pub mod Mappings
pub mod Exports
pub mod Setup
pub mod Parts
pub mod Frame
pub mod Methods
