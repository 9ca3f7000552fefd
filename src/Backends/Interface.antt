-- ===== src/Backends/Interface.antt =====
-- What targetd/block.py calls of a back end (`lvm` and `zfs` of targetd/backends), over an unknown
-- state `W` of the machine.
use targetd.Prelude.{ℕ, Bool, Text, List, Option}
use targetd.Prelude.Dict.{Dict}
use targetd.Utils.Errors.{Result}
use targetd.Utils.Exec.{Exec}

-- An entry of the list that `volumes` returns.
pub record Volume : Type 0 where
  pub name : Text
  pub size : ℕ
  pub uuid : Text

-- An entry of the list that `block_pools` and `fs_pools` return; its `type` is fixed by the
-- function, and `fs_pools` gives no `uuid`.
pub record PoolInfo : Type 0 where
  pub name : Text
  pub size : ℕ
  pub free_size : ℕ
  pub uuid : Option Text

-- What `vol_info` returns: the attributes that block.py reads.
pub record VolInfo : Type 0 where
  pub uuid : Text
  pub size : ℕ

pub record BlockBackend (W : Type 0) : Type 0 where
  pub has_pool : Text → Bool
  pub has_udev_path : Text → Bool
  pub has_so_name : Text → Result Bool
  pub split_udev_path : Text → Result (Text × Text)
  pub pool2dev_name : Text → Result Text
  pub dev2pool_name : Text → Result Text
  pub get_so_name : Text → Text → Result Text
  pub so_name2pool_volume : Text → Result (Text × Text)
  pub get_dev_path : Text → Text → Result Text
  pub volumes : Text → Exec W (List Volume)
  pub create : Text → Text → ℕ → Exec W (Unit {0})
  pub destroy : Text → Text → Exec W (Unit {0})
  pub copy : Text → Text → Text → Option ℕ → Exec W (Unit {0})
  pub resize : Text → Text → ℕ → Exec W (Unit {0})
  pub vol_info : Text → Text → Exec W (Option VolInfo)
  pub block_pools : Exec W (List PoolInfo)

-- An entry of the dict that `fs_hash` returns.
pub record FileSystem : Type 0 where
  pub name : Text
  pub uuid : Text
  pub total_space : ℕ
  pub free_space : ℕ
  pub pool : Text
  pub full_path : Text

-- An entry of the list that `ss` returns.
pub record Snapshot : Type 0 where
  pub name : Text
  pub uuid : Text
  pub timestamp : ℕ

-- What targetd/fs.py calls of a back end (`zfs` and `btrfs`).
pub record FsBackend (W : Type 0) : Type 0 where
  pub has_fs_pool : Text → Bool
  pub fs_create : Text → Text → ℕ → Exec W (Unit {0})
  pub fs_snapshot : Text → Text → Text → Exec W (Unit {0})
  pub fs_snapshot_delete : Text → Text → Text → Exec W (Unit {0})
  pub fs_destroy : Text → Text → Exec W (Unit {0})
  pub fs_pools : Exec W (List PoolInfo)
  pub fs_hash : Exec W (Dict FileSystem)
  pub ss : Text → Text → Exec W (List Snapshot)
  pub fs_clone : Text → Text → Text → Option Text → Exec W (Unit {0})
