-- ===== src/Tests/Setup.antt =====
-- The initialisation of targetd/block.py and targetd/fs.py at concrete machines.
use targetd.Prelude.{
  ℕ, suc, ◌≡◌, refl, true, false, Text, codes, text_eq, some, List, [], ◌∷◌, ◌++◌, if◌then◌else◌,
  member, All, ◌≤◌, arith,
}
use targetd.Prelude.Split.{split}
use targetd.Prelude.Dict.{lookup, insert}
use targetd.Utils.Errors.{pos, ok, err, targetd_error, no_support}
use targetd.Backends.Zfs.Names.{Zfs}
use targetd.Backends.Zfs.Command.{Machine}
use targetd.Backends.Zfs.Volumes.{zfs_backend}
use targetd.Backends.Lvm.Names.{Lvm}
use targetd.Backends.Lvm.Volumes.{BlockDev, lvm_backend}
use targetd.Block.Volumes.{pool_module}
use targetd.Block.Setup.{Modules, initialize, pool_modules}
use targetd.Block.Setup.Laws.{initialize-serves}
use targetd.Fs.Setup.{no_pools, mounted_filesystems, sort_mounts}
use targetd.Fs.Setup.Laws.{count, of_type, unsupported, sort_mounts-of_type}

-- A zfs program that knows the dataset `tank`, over a machine that counts the runs.
abbrev answering : Machine ℕ
answering = record {
  run =
      λ _ n. (record { code = pos 0; out = codes "tank\ttype\tfilesystem\n"; stderr = [] }, suc n);
  which_zfs = λ _. some (codes "/sbin/zfs");
  time = λ n. n;
}

-- Every group is there.
abbrev bd : BlockDev ℕ
bd = record {
  lvinfo = λ vg lv n. (err (targetd_error no_support), n);
  vginfo = λ vg n. (ok (record { size = 9; free = 4; uuid = codes "g" }), suc n);
  lvs = λ vg n. (ok [], n);
  thlvcreate = λ vg tp lv size n. (ok tt, n);
  lvcreate = λ vg lv size n. (ok tt, n);
  lvremove = λ vg lv n. (ok tt, n);
  thsnapshotcreate = λ vg lv new tp n. (ok tt, n);
  lvresize = λ vg lv size n. (ok tt, n);
}

abbrev before : Modules
before = (
  record { pools = []; pools_fs = []; zfs_cmd = []; zfs_enable_copy = false },
  record { pools = []; vg_name_2_pool_name_dict = [] },
)

abbrev behind : Modules
behind = (
  record {
    pools = codes "tank" ∷ [];
    pools_fs = [];
    zfs_cmd = codes "/sbin/zfs";
    zfs_enable_copy = true;
  },
  record { pools = codes "vg" ∷ []; vg_name_2_pool_name_dict = (codes "vg", codes "vg") ∷ [] },
)

initialized :
    initialize answering bd before true (codes "tank" ∷ []) (codes "vg" ∷ []) 0 ≡ (ok behind, 2)
unfolding initialize targetd.Backends.Zfs.Pools.initialize
    targetd.Backends.Zfs.Pools.check_pools_access targetd.Backends.Zfs.Names.has_nested
    targetd.Prelude.starts_with targetd.Backends.Zfs.Pools.check_datasets
    targetd.Backends.Zfs.Pools.zfs_find_cmd targetd.Backends.Zfs.Get.zfs_get
    targetd.Backends.Zfs.Command.unpacked_exec targetd.Backends.Zfs.Command.zfs_exec_command split
    targetd.Prelude.strip targetd.Backends.Zfs.Pools.pool_is_invalid lookup insert text_eq
    targetd.Backends.Lvm.Volumes.initialize targetd.Backends.Lvm.Volumes.check_pools_access
    targetd.Backends.Lvm.Names.vg_lv targetd.Backends.Lvm.Names.register
    targetd.Backends.Lvm.Names.get_vg_lv targetd.Backends.Lvm.Volumes.check_pools
    targetd.Backends.Lvm.Volumes.check_there targetd.Backends.Lvm.Volumes.check_separate
initialized = refl

tank_served :
    (member (codes "tank") (codes "tank" ∷ []) ≡ true
      → pool_module (pool_modules answering bd (λ _ _ _. pos 0) behind) (codes "tank")
        ≡ ok (zfs_backend answering behind.0))
    × (member (codes "tank") (codes "vg" ∷ []) ≡ true
        → pool_module (pool_modules answering bd (λ _ _ _. pos 0) behind) (codes "tank")
          ≡ ok (lvm_backend bd (λ _ _ _. pos 0) behind.1))
tank_served =
    initialize-serves answering bd (λ _ _ _. pos 0) before behind true (codes "tank" ∷ [])
      (codes "vg" ∷ []) (codes "tank") 0 2 initialized

-- A pool of each type, and a file system that is no pool.
abbrev mounts : List (List Text)
mounts =
    (codes "tank" ∷ codes "/z" ∷ codes "zfs" ∷ codes "rw" ∷ [])
    ∷ (codes "/dev/sda" ∷ codes "/" ∷ codes "ext4" ∷ codes "rw" ∷ [])
    ∷ (codes "/dev/sdb" ∷ codes "/b" ∷ codes "btrfs" ∷ codes "rw" ∷ [])
    ∷ []

mounts_read :
    mounted_filesystems (codes "tank /z zfs\n/dev/sdb /b btrfs")
    ≡ (codes "tank" ∷ codes "/z" ∷ codes "zfs\n" ∷ [])
      ∷ (codes "/dev/sdb" ∷ codes "/b" ∷ codes "btrfs" ∷ [])
      ∷ []
unfolding mounted_filesystems split
mounts_read = refl

long : All (λ info. 3 ≤ count info) mounts
long = (omega arith, (omega arith, (omega arith, tt)))

pools_sorted : sort_mounts {W = ℕ} (codes "/z" ∷ codes "/b" ∷ []) mounts no_pools 5 ≡ (
  if unsupported (codes "/z" ∷ codes "/b" ∷ []) mounts
      then err (targetd_error no_support)
      else ok (record {
        zfs = of_type (codes "zfs") (codes "/z" ∷ codes "/b" ∷ []) mounts;
        btrfs = of_type (codes "btrfs") (codes "/z" ∷ codes "/b" ∷ []) mounts;
      }),
  5,
)
pools_sorted = sort_mounts-of_type (codes "/z" ∷ codes "/b" ∷ []) mounts no_pools 5 long
