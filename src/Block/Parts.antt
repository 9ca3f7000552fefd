-- ===== src/Block/Parts.antt =====
-- What the functions of targetd/block.py work on.
use targetd.Prelude.{ℕ, Text, Option, List}
use targetd.Backends.Interface.{BlockBackend}
use targetd.Block.AccessGroups.{Target}
use targetd.Block.Mappings.{Rtslib}
use targetd.Block.Exports.{NodeAcls}

-- rtslib in its three parts, the modules of the pools, the names of the exported storage objects,
-- and the choice of a host LUN.
pub record Parts (W Storage Lun : Type 0) : Type 0 where
  pub target : Target W
  pub rtslib : Rtslib W Storage Lun
  pub node_acls : NodeAcls W Storage Lun
  pub pool_modules : List (BlockBackend W)
  pub luns : W → Option (List Text)
  pub pop : List ℕ → Option ℕ
  pub max_lun : ℕ
