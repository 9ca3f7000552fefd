-- ===== src/Block/Setup.antt =====
-- `initialize` of targetd/block.py, and the back ends that it leaves in `pool_modules`.
pub mod Laws
use targetd.Prelude.{ℕ, Bool, Text, member, any, List, [], ◌∷◌}
use targetd.Utils.Errors.{ℤ, targetd_error, invalid}
use targetd.Utils.Exec.{Exec, pure, ◌>>=◌, ◌>>◌, raise_if}
use targetd.Backends.Interface.{BlockBackend}
use targetd.Backends.Zfs.Names.{Zfs}
use targetd.Backends.Zfs.Command.{Machine}
use targetd.Backends.Zfs.Pools
use targetd.Backends.Zfs.Volumes.{zfs_backend}
use targetd.Backends.Lvm.Names.{Lvm}
use targetd.Backends.Lvm.Volumes
use targetd.Backends.Lvm.Volumes.{BlockDev, lvm_backend}

-- The variables of the two modules.
abbrev pub Modules : Type 0
Modules = Zfs × Lvm

module _ {W : Type 0} (m : Machine W) (bd : BlockDev W) where
  -- The pools of the configuration are given as lists; the zfs module is the first one.
  unfoldable pub initialize : Modules → Bool → List Text → List Text → Exec W Modules
  initialize (zfs, lvm) zfs_enable_copy zfs_block_pools block_pools = do
    raise_if (any (λ i. member i zfs_block_pools) block_pools) (targetd_error invalid)
    zfs' ← Pools.initialize m zfs zfs_enable_copy zfs_block_pools
    lvm' ← Volumes.initialize bd lvm block_pools
    pure (zfs', lvm')

  abbrev pub pool_modules : (ℕ → ℤ → ℤ → ℤ) → Modules → List (BlockBackend W)
  pool_modules estimate (zfs, lvm) = zfs_backend m zfs ∷ lvm_backend bd estimate lvm ∷ []
