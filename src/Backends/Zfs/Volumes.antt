-- ===== src/Backends/Zfs/Volumes.antt =====
-- The volumes of targetd/backends/zfs.py: zvols, their snapshots and clones.
use targetd.Prelude.{
  ℕ, Bool, true, false, not, Text, codes, has_text, remove_first, decimal, Option, none, some, List,
  [], ◌∷◌, ◌++◌, if◌then◌else◌,
}
use targetd.Prelude.Dict.{lookup}
use targetd.Utils.Errors.{
  ok, targetd_error, invalid_argument, unexpected_exit_code, no_support, name_conflict, ErrorCode,
}
use targetd.Utils.Exec.{Exec, pure, raise, lift, gets, ◌>>=◌, ◌>>◌, raise_if, skip}
use targetd.Backends.Interface.{Volume, VolInfo, BlockBackend}
use targetd.Backends.Zfs.Names
use targetd.Backends.Zfs.Names.{Zfs, check_dataset_name, with_slash}
use targetd.Backends.Zfs.Command.{Process, Machine, succeeded, unpacked_exec, run_and_ignore}
use targetd.Backends.Zfs.Get.{Properties, zfs_get, property, number}
use targetd.Backends.Zfs.Pools.{is_nil, block_pools}

-- `pool + "/" + name`
abbrev pub dataset : Text → Text → Text
dataset pool name = pool ++ (b'/' ∷ name)

-- `"%s/%s@%s" % (pool, name, snap)`
abbrev pub snapshot_of : Text → Text → Text → Text
snapshot_of pool name snap = dataset pool name ++ (b'@' ∷ snap)

-- A test for `info is not None`.
abbrev pub exists {ℓ} : {A : Type ℓ} → Option A → Bool
exists none = false
exists (some a) = true

abbrev pub clone_args : Text → Text → Text → Text → Option ℕ → List Text
clone_args pool vol_orig vol_new snap size =
    let names = snapshot_of pool vol_orig snap ∷ dataset pool vol_new ∷ [] in
    codes "clone" ∷ elim size [
      | none ↦ names
      | some bytes ↦ codes "-o" ∷ (codes "volsize=" ++ decimal bytes) ∷ names
    ]

module _ {W : Type 0} (m : Machine W) (zfs : Zfs) where
  abbrev pub exec : List Text → Exec W Process
  exec args = unpacked_exec m zfs.zfs_cmd args

  -- `if code != 0: raise`
  abbrev pub require : Process → ErrorCode → Exec W (Unit {0})
  require p code = raise_if (not (succeeded p)) (targetd_error code)

  -- The loop of `volumes` over the datasets.
  unfoldable pub volumes_of : Text → Properties → Exec W (List Volume)
  volumes_of pool [] = pure []
  volumes_of pool ((fullname, props) ∷ allprops) = do
    size ← lift (number (codes "volsize") props)
    uuid ← lift (property (codes "guid") props)
    rest ← volumes_of pool allprops
    pure
        (record { name = remove_first fullname (with_slash pool); size = size; uuid = uuid } ∷ rest)

  unfoldable pub volumes : Text → Exec W (List Volume)
  unfolding volumes_of
  volumes pool =
      if is_nil zfs.zfs_cmd
      then pure []
      else (zfs_get m zfs.zfs_cmd (pool ∷ []) (codes "volsize" ∷ codes "guid" ∷ []) true
            (codes "volume")
          >>= λ allprops. volumes_of pool allprops)

  unfoldable pub vol_info : Text → Text → Exec W (Option VolInfo)
  vol_info pool name = do
    props ←
        zfs_get m zfs.zfs_cmd (dataset pool name ∷ []) (codes "guid" ∷ codes "volsize" ∷ []) false
          (codes "volume")
    elim (lookup (dataset pool name) props) [
      | none ↦ pure none
      | some q ↦
          (lift (property (codes "guid") q) >>= λ uuid.
          lift (number (codes "volsize") q) >>= λ size.
          pure (some (record { uuid = uuid; size = size })))
    ]

  unfoldable pub create : Text → Text → ℕ → Exec W (Unit {0})
  create pool name size = do
    lift (check_dataset_name name)
    p ← exec (codes "create" ∷ codes "-V" ∷ decimal size ∷ dataset pool name ∷ [])
    require p unexpected_exit_code

  -- Snapshots and children go too; a volume with dependent clones stays.
  unfoldable pub destroy : Text → Text → Exec W (Unit {0})
  destroy pool name = do
    lift (check_dataset_name name)
    p ← exec (codes "destroy" ∷ codes "-r" ∷ dataset pool name ∷ [])
    require p (
        if has_text (codes "volume has dependent clones") p.stderr
        then invalid_argument
        else unexpected_exit_code)

  -- `snap`, or a new snapshot that is named for the copy and the time.
  unfoldable pub source_snapshot : Text → Text → Text → Option Text → Exec W Text
  source_snapshot pool vol_orig vol_new (some snap) = pure snap
  source_snapshot pool vol_orig vol_new none = do
    now ← gets m.time
    let snap = vol_new ++ decimal now
    p ← exec (codes "snapshot" ∷ snapshot_of pool vol_orig snap ∷ [])
    require p unexpected_exit_code
    pure snap

  -- The clone, and the removal of the snapshot where it fails.
  unfoldable pub clone_or_clean : Text → Text → Text → Text → Option ℕ → Exec W (Unit {0})
  clone_or_clean pool vol_orig vol_new snap size = do
    p ← exec (clone_args pool vol_orig vol_new snap size)
    if succeeded p
        then skip
        else (run_and_ignore m zfs.zfs_cmd (codes "destroy" ∷ snapshot_of pool vol_orig snap ∷ [])
            >>= λ _. raise (targetd_error unexpected_exit_code))

  unfoldable pub copy_with :
      Text
      → Text
      → Text
      → Option ℕ
      → (Text → Text → Exec W (Option VolInfo))
      → Option Text
      → Exec W (Unit {0})
  copy_with pool vol_orig vol_new size info_fn snap = do
    raise_if (not zfs.zfs_enable_copy) (targetd_error no_support)
    lift (check_dataset_name vol_orig)
    lift (check_dataset_name vol_new)
    found ← info_fn pool vol_new
    raise_if (exists found) (targetd_error name_conflict)
    snap' ← source_snapshot pool vol_orig vol_new snap
    clone_or_clean pool vol_orig vol_new snap' size

  unfoldable pub copy : Text → Text → Text → Option ℕ → Exec W (Unit {0})
  unfolding copy_with
  copy pool vol_orig vol_new size = copy_with pool vol_orig vol_new size vol_info none

  unfoldable pub resize : Text → Text → ℕ → Exec W (Unit {0})
  resize pool name size = do
    p ← exec (codes "set" ∷ (codes "volsize=" ++ decimal size) ∷ dataset pool name ∷ [])
    require p unexpected_exit_code

  -- The module as targetd/block.py calls it.
  abbrev pub zfs_backend : BlockBackend W
  zfs_backend = record {
    has_pool = Names.has_pool zfs;
    has_udev_path = Names.has_udev_path zfs;
    has_so_name = Names.has_so_name zfs;
    split_udev_path = Names.unpacked_udev_path zfs;
    pool2dev_name = λ pool. ok (Names.pool2dev_name pool);
    dev2pool_name = λ dev. ok (Names.dev2pool_name dev);
    get_so_name = λ pool volname. ok (Names.get_so_name pool volname);
    so_name2pool_volume = Names.so_name2pool_volume;
    get_dev_path = λ pool name. ok (Names.get_dev_path pool name);
    volumes = volumes;
    create = create;
    destroy = destroy;
    copy = copy;
    resize = resize;
    vol_info = vol_info;
    block_pools = block_pools m zfs;
  }
