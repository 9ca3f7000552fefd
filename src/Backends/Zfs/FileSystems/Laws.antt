-- ===== src/Backends/Zfs/FileSystems/Laws.antt =====
-- Names that reach no command of targetd/backends/zfs.py.
use targetd.Prelude.{ℕ, ◌≡◌, true, Text, Option}
use targetd.Utils.Errors.{Exception, ok, err}
use targetd.Backends.Zfs.Names.{Zfs, check_dataset_name}
use targetd.Backends.Zfs.Command.{Machine}
use targetd.Backends.Zfs.Volumes.{create, destroy, copy, copy_with}
use targetd.Backends.Zfs.FileSystems.{fs_create, fs_snapshot, fs_snapshot_delete}

module _ {W : Type 0} (m : Machine W) (zfs : Zfs) where
  -- With copies enabled, a name that `_check_dataset_name` refuses reaches no zfs command by `create`,
  -- `destroy` and `fs_create`, nor, as either of the two names, the other being accepted, by `copy`,
  -- `fs_snapshot` and `fs_snapshot_delete`: they end with its error and leave the machine as it was.
  pub bad_name_runs_nothing :
      (pool name other : Text) (size : ℕ) (bytes : Option ℕ) (e : Exception) (w : W)
      → check_dataset_name name ≡ err e
      → check_dataset_name other ≡ ok tt
      → zfs.zfs_enable_copy ≡ true
      → (create m zfs pool name size w ≡ (err e, w))
        × (destroy m zfs pool name w ≡ (err e, w))
        × (copy m zfs pool name other bytes w ≡ (err e, w))
        × (copy m zfs pool other name bytes w ≡ (err e, w))
        × (fs_create m zfs pool name size w ≡ (err e, w))
        × (fs_snapshot m zfs pool name other w ≡ (err e, w))
        × (fs_snapshot m zfs pool other name w ≡ (err e, w))
        × (fs_snapshot_delete m zfs pool name other w ≡ (err e, w))
        × (fs_snapshot_delete m zfs pool other name w ≡ (err e, w))
  unfolding create destroy copy copy_with fs_create fs_snapshot fs_snapshot_delete
  bad_name_runs_nothing pool name other size bytes e w bad good enabled = (
    rw bad,
    rw bad,
    rw (enabled, bad),
    rw (enabled, good, bad),
    rw bad,
    rw bad,
    rw (good, bad),
    rw bad,
    rw (good, bad),
  )
