-- ===== src/Tests/Zfs.antt =====
-- The theorems on targetd/backends/zfs.py at concrete pools and a concrete zfs program.
use targetd.Prelude.{
  ℕ, suc, ◌≡◌, ◌≤◌, refl, Bool, true, false, Text, codes, text_eq, has_text, starts_with, Option,
  none, some, List, [], ◌∷◌, ◌++◌, map, All, any, arith,
}
use targetd.Prelude.Split.{split, Lacks}
use targetd.Prelude.Dict.{lookup, insert}
use targetd.Utils.Errors.{
  pos, ok, err, targetd_error, invalid_argument, unexpected_exit_code, type_error,
}
use targetd.Backends.Zfs.Names
use targetd.Backends.Zfs.Names.{Zfs, has_nested, has_pool, check_dataset_name}
use targetd.Backends.Zfs.Names.Laws.{unpacked_udev_path-get_dev_path}
use targetd.Backends.Zfs.Command.{Machine, zfs_exec_command, unpacked_exec}
use targetd.Backends.Zfs.Command.Laws.{Ended, zfs_exec_command-Ended}
use targetd.Backends.Zfs.Pools
use targetd.Backends.Zfs.Pools.Laws.{initialize-ok}
use targetd.Backends.Zfs.Volumes
use targetd.Backends.Zfs.FileSystems
use targetd.Backends.Zfs.FileSystems.Laws.{bad_name_runs_nothing}

abbrev zfs : Zfs
zfs = record {
  pools = codes "tank" ∷ codes "tank2" ∷ [];
  pools_fs = (codes "/tank", codes "tank") ∷ [];
  zfs_cmd = codes "zfs";
  zfs_enable_copy = true;
}

dev_path_split :
    (Names.unpacked_udev_path zfs (Names.get_dev_path (codes "tank2") (codes "v1"))
      ≡ ok (codes "tank2", codes "v1"))
    × (Names.has_udev_path zfs (Names.get_dev_path (codes "tank2") (codes "v1")) ≡ true)
unfolding has_nested starts_with has_pool text_eq check_dataset_name Names.allowed_name
dev_path_split = unpacked_udev_path-get_dev_path zfs (codes "tank2") (codes "v1") refl refl refl

-- A zfs program that is always busy, over a machine that counts the runs.
abbrev busy : Machine ℕ
busy = record {
  run = λ _ n. (record { code = pos 1; out = []; stderr = codes "dataset is busy" }, suc n);
  which_zfs = λ _. some (codes "zfs");
  time = λ n. n;
}

busy-Ended :
    Ended busy
      (codes "zfs" ∷ codes "list" ∷ [])
      0
      (zfs_exec_command busy (codes "zfs") (codes "list" ∷ []) 0)
busy-Ended = zfs_exec_command-Ended busy (codes "zfs") (codes "list" ∷ []) 0

busy_raises : unpacked_exec busy (codes "zfs") (codes "list" ∷ []) 0 ≡ (err type_error, 3)
unfolding unpacked_exec zfs_exec_command has_text
busy_raises = refl

bad_name :
    (Volumes.create busy zfs (codes "tank") (codes "a/b") 1 0
      ≡ (err (targetd_error invalid_argument), 0))
    × (Volumes.destroy busy zfs (codes "tank") (codes "a/b") 0
        ≡ (err (targetd_error invalid_argument), 0))
    × (Volumes.copy busy zfs (codes "tank") (codes "a/b") (codes "v1") none 0
        ≡ (err (targetd_error invalid_argument), 0))
    × (Volumes.copy busy zfs (codes "tank") (codes "v1") (codes "a/b") none 0
        ≡ (err (targetd_error invalid_argument), 0))
    × (FileSystems.fs_create busy zfs (codes "tank") (codes "a/b") 1 0
        ≡ (err (targetd_error invalid_argument), 0))
    × (FileSystems.fs_snapshot busy zfs (codes "tank") (codes "a/b") (codes "v1") 0
        ≡ (err (targetd_error invalid_argument), 0))
    × (FileSystems.fs_snapshot busy zfs (codes "tank") (codes "v1") (codes "a/b") 0
        ≡ (err (targetd_error invalid_argument), 0))
    × (FileSystems.fs_snapshot_delete busy zfs (codes "tank") (codes "a/b") (codes "v1") 0
        ≡ (err (targetd_error invalid_argument), 0))
    × (FileSystems.fs_snapshot_delete busy zfs (codes "tank") (codes "v1") (codes "a/b") 0
        ≡ (err (targetd_error invalid_argument), 0))
unfolding check_dataset_name Names.allowed_name
bad_name =
    bad_name_runs_nothing busy zfs (codes "tank") (codes "a/b") (codes "v1") 1 none
      (targetd_error invalid_argument) 0 refl refl refl

-- A zfs program that answers every command with the type of `tank`.
abbrev answering : Machine ℕ
answering = record {
  run =
      λ _ n. (record { code = pos 0; out = codes "tank\ttype\tfilesystem\n"; stderr = [] }, suc n);
  which_zfs = λ _. some (codes "/sbin/zfs");
  time = λ n. n;
}

abbrev ready : Zfs
ready = record zfs { pools = codes "tank" ∷ []; zfs_cmd = codes "/sbin/zfs" }

pools_not_nested :
    (ready.pools ≡ codes "tank" ∷ [])
    × (has_nested ready.pools ≡ false)
    × All (Lacks b':') ready.pools
unfolding Pools.initialize Pools.check_pools_access has_nested starts_with Pools.check_datasets
    Pools.zfs_find_cmd targetd.Backends.Zfs.Get.zfs_get unpacked_exec zfs_exec_command split
    targetd.Prelude.strip Pools.pool_is_invalid lookup insert text_eq
pools_not_nested = initialize-ok answering zfs ready true (codes "tank" ∷ []) 0 1 refl

-- A zfs program that fails, over a machine that counts the runs.
abbrev failing : Machine ℕ
failing = record {
  run = λ _ n. (record { code = pos 1; out = []; stderr = [] }, suc n);
  which_zfs = λ _. some (codes "zfs");
  time = λ n. n;
}

-- The clone of the snapshot `kept` fails, and a fourth command is run behind it.
snapshot_destroyed :
    FileSystems.fs_clone failing zfs
      (codes "/tank")
      (codes "home")
      (codes "copy")
      (some (codes "kept"))
      0
    ≡ (err (targetd_error unexpected_exit_code), 4)
unfolding FileSystems.fs_clone FileSystems.device_of lookup text_eq FileSystems.fs_info
    targetd.Backends.Zfs.Get.zfs_get unpacked_exec zfs_exec_command has_text split
    targetd.Prelude.strip Volumes.copy_with check_dataset_name Names.allowed_name
    Volumes.source_snapshot Volumes.clone_or_clean targetd.Backends.Zfs.Command.run_and_ignore
snapshot_destroyed = refl
