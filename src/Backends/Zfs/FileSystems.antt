-- ===== src/Backends/Zfs/FileSystems.antt =====
-- The file systems of targetd/backends/zfs.py: datasets below the dataset of a mounted pool.
pub mod Laws
use targetd.Prelude.{
  ℕ, ◌+◌, Bool, true, false, not, Text, codes, text_eq, starts_with, remove_first, Option, none,
  some, List, [], ◌∷◌, ◌++◌, if◌then◌else◌,
}
use targetd.Prelude.Dict.{Dict, lookup, insert, update, contains}
use targetd.Utils.Errors.{
  targetd_error, key_error, exists_fs_name, exists_clone_name, unexpected_exit_code,
}
use targetd.Utils.Exec.{Exec, pure, raise, lift, ◌>>=◌, ◌>>◌, raise_if, skip}
use targetd.Backends.Interface.{VolInfo, FileSystem, Snapshot, FsBackend}
use targetd.Backends.Zfs.Names.{Zfs, check_dataset_name, with_slash}
use targetd.Backends.Zfs.Command.{Process, Machine}
use targetd.Backends.Zfs.Get.{Properties, zfs_get, property, number}
use targetd.Backends.Zfs.Pools.{is_nil, fs_pools}
use targetd.Backends.Zfs.Volumes.{dataset, snapshot_of, exists, exec, require, destroy, copy_with}

module _ {W : Type 0} (m : Machine W) (zfs : Zfs) where
  unfoldable pub has_fs_pool : Text → Bool
  has_fs_pool pool_name = contains pool_name zfs.pools_fs

  -- `pools_fs[pool]`
  unfoldable pub device_of : Text → Exec W Text
  device_of pool = elim (lookup pool zfs.pools_fs) [ some d ↦ pure d | none ↦ raise key_error ]

  -- The inner loop of `fs_hash`, over the datasets of one pool; the pool's own is passed over.
  unfoldable pub fs_entries : Text → Text → Properties → Dict FileSystem → Exec W (Dict FileSystem)
  fs_entries pool zfs_pool [] fs_list = pure fs_list
  fs_entries pool zfs_pool ((fullname, props) ∷ allprops) fs_list =
      let skipped = fs_entries pool zfs_pool allprops fs_list in
      let added = (do
        key ← lift (property (codes "name") props)
        uuid ← lift (property (codes "guid") props)
        used ← lift (number (codes "used") props)
        available ← lift (number (codes "available") props)
        full_path ← lift (property (codes "mountpoint") props)
        fs_entries pool zfs_pool allprops (
            insert key
              (record {
                name = remove_first fullname (with_slash zfs_pool);
                uuid = uuid;
                total_space = used + available;
                free_space = available;
                pool = pool;
                full_path = full_path;
              })
              fs_list)) in
      if text_eq fullname zfs_pool then skipped else added

  abbrev pub hash_properties : List Text
  hash_properties =
      codes "name" ∷ codes "mountpoint" ∷ codes "guid" ∷ codes "used" ∷ codes "available" ∷ []

  unfoldable pub fs_hash_of : Dict Text → Dict FileSystem → Exec W (Dict FileSystem)
  unfolding fs_entries
  fs_hash_of [] fs_list = pure fs_list
  fs_hash_of ((pool, zfs_pool) ∷ pools) fs_list = do
    allprops ← zfs_get m zfs.zfs_cmd (zfs_pool ∷ []) hash_properties true (codes "filesystem")
    fs_list' ← fs_entries pool zfs_pool allprops fs_list
    fs_hash_of pools fs_list'

  unfoldable pub fs_hash : Exec W (Dict FileSystem)
  unfolding fs_hash_of
  fs_hash = if is_nil zfs.zfs_cmd then pure [] else fs_hash_of zfs.pools_fs []

  unfoldable pub fs_info : Text → Text → Exec W (Option VolInfo)
  fs_info pool name = do
    props ←
        zfs_get m zfs.zfs_cmd (dataset pool name ∷ [])
          (codes "guid" ∷ codes "used" ∷ codes "available" ∷ []) false (codes "filesystem")
    elim (lookup (dataset pool name) props) [
      | none ↦ pure none
      | some q ↦
          (lift (property (codes "guid") q) >>= λ uuid.
          lift (number (codes "available") q) >>= λ available.
          lift (number (codes "used") q) >>= λ used.
          pure (some (record { uuid = uuid; size = available + used })))
    ]

  -- The `uuid` of the snapshot, if it is there.
  unfoldable pub snap_info : Text → Text → Text → Exec W (Option Text)
  snap_info pool name snapshot = do
    props ←
        zfs_get m zfs.zfs_cmd (snapshot_of pool name snapshot ∷ []) (codes "guid" ∷ []) false
          (codes "snapshot")
    elim (lookup (snapshot_of pool name snapshot) props) [
      | none ↦ pure none
      | some q ↦ (lift (property (codes "guid") q) >>= λ uuid. pure (some uuid))
    ]

  unfoldable pub fs_create : Text → Text → ℕ → Exec W (Unit {0})
  fs_create pool name size = do
    lift (check_dataset_name name)
    zfs_pool ← device_of pool
    found ← fs_info zfs_pool name
    raise_if (exists found) (targetd_error exists_fs_name)
    p ← exec m zfs (codes "create" ∷ dataset zfs_pool name ∷ [])
    require m zfs p unexpected_exit_code

  unfoldable pub fs_destroy : Text → Text → Exec W (Unit {0})
  fs_destroy pool name = do zfs_pool ← device_of pool; destroy m zfs zfs_pool name

  -- The loop of `ss`; a snapshot of a dataset further down is passed over.
  unfoldable pub snapshots_of : Text → Properties → Exec W (List Snapshot)
  snapshots_of prefix [] = pure []
  snapshots_of prefix ((fullname, props) ∷ allprops) =
      let skipped = snapshots_of prefix allprops in
      let added = (do
        timestamp ← lift (number (codes "creation") props)
        name ← lift (property (codes "name") props)
        uuid ← lift (property (codes "guid") props)
        rest ← snapshots_of prefix allprops
        pure (
            record { name = remove_first name prefix; uuid = uuid; timestamp = timestamp }
            ∷ rest)) in
      if starts_with fullname prefix then added else skipped

  unfoldable pub ss : Text → Text → Exec W (List Snapshot)
  unfolding snapshots_of
  ss pool name = do
    zfs_pool ← device_of pool
    allprops ←
        zfs_get m zfs.zfs_cmd (dataset zfs_pool name ∷ [])
          (codes "name" ∷ codes "guid" ∷ codes "creation" ∷ []) true (codes "snapshot")
    snapshots_of (dataset zfs_pool name ++ (b'@' ∷ [])) allprops

  unfoldable pub fs_snapshot : Text → Text → Text → Exec W (Unit {0})
  fs_snapshot pool name dest_ss_name = do
    lift (check_dataset_name name)
    lift (check_dataset_name dest_ss_name)
    zfs_pool ← device_of pool
    found ← snap_info zfs_pool name dest_ss_name
    raise_if (exists found) (targetd_error exists_fs_name)
    p ← exec m zfs (codes "snapshot" ∷ snapshot_of zfs_pool name dest_ss_name ∷ [])
    require m zfs p unexpected_exit_code

  unfoldable pub fs_snapshot_delete : Text → Text → Text → Exec W (Unit {0})
  fs_snapshot_delete pool name ss_name = do
    lift (check_dataset_name name)
    lift (check_dataset_name ss_name)
    zfs_pool ← device_of pool
    found ← snap_info zfs_pool name ss_name
    if exists found
        then (exec m zfs (codes "destroy" ∷ codes "-r" ∷ snapshot_of zfs_pool name ss_name ∷ [])
            >>= λ p. require m zfs p unexpected_exit_code)
        else skip

  unfoldable pub fs_clone : Text → Text → Text → Option Text → Exec W (Unit {0})
  fs_clone pool name dest_fs_name snapshot_name = do
    zfs_pool ← device_of pool
    found ← fs_info zfs_pool dest_fs_name
    raise_if (exists found) (targetd_error exists_clone_name)
    copy_with m zfs zfs_pool name dest_fs_name none fs_info snapshot_name

  -- The module as targetd/fs.py calls it.
  abbrev pub zfs_fs_backend : FsBackend W
  zfs_fs_backend = record {
    has_fs_pool = has_fs_pool;
    fs_create = fs_create;
    fs_snapshot = fs_snapshot;
    fs_snapshot_delete = fs_snapshot_delete;
    fs_destroy = fs_destroy;
    fs_pools = fs_pools m zfs;
    fs_hash = fs_hash;
    ss = ss;
    fs_clone = fs_clone;
  }
