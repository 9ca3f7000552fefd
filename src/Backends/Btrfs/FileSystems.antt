-- ===== src/Backends/Btrfs/FileSystems.antt =====
-- The operations of targetd/backends/btrfs.py on file systems and snapshots.
pub mod Laws
use targetd.Prelude.{
  ℕ, Bool, true, false, Text, codes, starts_with, drop_text, Option, none, some, List, [], ◌∷◌,
  ◌++◌, if◌then◌else◌,
}
use targetd.Prelude.Dict.{Dict, insert}
use targetd.Utils.Items.{item}
use targetd.Utils.Errors.{targetd_error, exists_fs_name, exists_clone_name}
use targetd.Utils.Exec.{Exec, pure, raise, lift, gets, ◌>>=◌, ◌>>◌, raise_if, skip}
use targetd.Utils.Invoke.{invoke}
use targetd.Backends.Interface.{FileSystem, Snapshot, FsBackend}
use targetd.Backends.Btrfs.Paths.{
  fs_path, fs_cmd, path_join, fs_of, snapshots_dir, snapshot_path, split_stdout,
}
use targetd.Backends.Btrfs.Snapshots.{snapshots_of}
use targetd.Backends.Btrfs.Commands.{
  Host, create_sub_volume, fs_subvolume_delete, fs_space_values, pool_sizes, invoke_retries,
  has_fs_pool,
}

-- `fs_path + os.path.sep`
abbrev pub prefix : Text
prefix = fs_path ++ b'/' ∷ []

abbrev pub list_all : Text → List Text
list_all pool = fs_cmd ∷ codes "subvolume" ∷ codes "list" ∷ codes "-ua" ∷ pool ∷ []

abbrev pub list_snapshots : Text → List Text
list_snapshots dir = fs_cmd ∷ codes "subvolume" ∷ codes "list" ∷ codes "-s" ∷ dir ∷ []

-- `source` of `fs_clone`
unfoldable pub clone_source : Text → Text → Option Text → Text
clone_source pool name none = fs_of pool name
clone_source pool name (some snapshot_name) = snapshot_path pool name snapshot_name

module _ {W : Type 0} (h : Host W) where
  -- `invoke([fs_cmd, "subvolume"] + args)`
  unfoldable pub subvolume : List Text → Exec W (Unit {0})
  unfolding invoke
  subvolume args = invoke h.run (fs_cmd ∷ codes "subvolume" ∷ args) true >> skip

  unfoldable pub fs_create : Text → Text → ℕ → Exec W (Unit {0})
  unfolding subvolume
  fs_create pool_name name size_bytes = do
    found ← gets (h.path_exists (fs_of pool_name name))
    raise_if found (targetd_error exists_fs_name)
    subvolume (codes "create" ∷ fs_of pool_name name ∷ [])

  unfoldable pub fs_snapshot : Text → Text → Text → Exec W (Unit {0})
  unfolding subvolume
  fs_snapshot pool name dest_ss_name = do
    create_sub_volume h (snapshots_dir pool name)
    found ← gets (h.path_exists (snapshot_path pool name dest_ss_name))
    raise_if found (targetd_error exists_fs_name)
    subvolume (
        codes "snapshot" ∷ codes "-r" ∷ fs_of pool name ∷ snapshot_path pool name dest_ss_name ∷ [])

  unfoldable pub fs_snapshot_delete : Text → Text → Text → Exec W (Unit {0})
  fs_snapshot_delete pool name ss_name = fs_subvolume_delete h (snapshot_path pool name ss_name)

  unfoldable pub ss : Text → Text → Exec W (List Snapshot)
  ss pool name = do
    found ← gets (h.path_exists (snapshots_dir pool name))
    if found
        then (invoke_retries h (list_snapshots (snapshots_dir pool name)) >>= λ p.
            lift (snapshots_of h.epoch (split_stdout p.out)))
        else pure []

  -- The loop of `fs_destroy`.
  unfoldable pub delete_all : Text → List Snapshot → Exec W (Unit {0})
  delete_all base_snapshot_dir [] = skip
  delete_all base_snapshot_dir (s ∷ snapshots) = do
    fs_subvolume_delete h (path_join base_snapshot_dir s.name)
    delete_all base_snapshot_dir snapshots

  unfoldable pub fs_destroy : Text → Text → Exec W (Unit {0})
  unfolding ss delete_all
  fs_destroy pool name = do
    snapshots ← ss pool name
    delete_all (snapshots_dir pool name) snapshots
    found ← gets (h.path_exists (snapshots_dir pool name))
    if found then fs_subvolume_delete h (snapshots_dir pool name) else skip
    fs_subvolume_delete h (fs_of pool name)

  -- The inner loop of `fs_hash`, over the parts of the lines of one pool.
  unfoldable pub fs_entries :
      Text → ℕ × ℕ → List (List Text) → Dict FileSystem → Exec W (Dict FileSystem)
  fs_entries pool space [] fs_list = pure fs_list
  fs_entries pool (total, free) (e ∷ data') fs_list = do
    sub_vol ← lift (item 10 e)
    let skipped = fs_entries pool (total, free) data' fs_list
    if starts_with sub_vol prefix
        then (lift (item 8 e) >>= λ uuid.
            let key = path_join pool sub_vol in
            fs_entries pool (total, free) data'
              (insert key
                (record {
                  name = drop_text prefix sub_vol;
                  uuid = uuid;
                  total_space = total;
                  free_space = free;
                  pool = pool;
                  full_path = key;
                })
                fs_list))
        else skipped

  -- `if len(data): …` of `fs_hash`.
  unfoldable pub entries_of : Text → List (List Text) → Dict FileSystem → Exec W (Dict FileSystem)
  unfolding fs_entries
  entries_of pool [] fs_list = pure fs_list
  entries_of pool (e ∷ data') fs_list = do
    space ← fs_space_values h (path_join pool fs_path)
    fs_entries pool space (e ∷ data') fs_list

  -- The loop of `fs_hash`.
  unfoldable pub fs_hash_of : List Text → Dict FileSystem → Exec W (Dict FileSystem)
  unfolding entries_of
  fs_hash_of [] fs_list = pure fs_list
  fs_hash_of (pool ∷ pools) fs_list = do
    p ← invoke_retries h (list_all pool)
    fs_list' ← entries_of pool (split_stdout p.out) fs_list
    fs_hash_of pools fs_list'

  unfoldable pub fs_hash : List Text → Exec W (Dict FileSystem)
  unfolding fs_hash_of
  fs_hash pools = fs_hash_of pools []

  unfoldable pub fs_clone : Text → Text → Text → Option Text → Exec W (Unit {0})
  unfolding subvolume clone_source
  fs_clone pool name dest_fs_name snapshot_name = do
    found ← gets (h.path_exists (fs_of pool dest_fs_name))
    raise_if found (targetd_error exists_clone_name)
    subvolume
        (codes "snapshot" ∷ clone_source pool name snapshot_name ∷ fs_of pool dest_fs_name ∷ [])

  -- The module as targetd/fs.py calls it.
  abbrev pub btrfs_fs_backend : List Text → FsBackend W
  btrfs_fs_backend pools = record {
    has_fs_pool = has_fs_pool pools;
    fs_create = fs_create;
    fs_snapshot = fs_snapshot;
    fs_snapshot_delete = fs_snapshot_delete;
    fs_destroy = fs_destroy;
    fs_pools = pool_sizes h pools;
    fs_hash = fs_hash pools;
    ss = ss;
    fs_clone = fs_clone;
  }
