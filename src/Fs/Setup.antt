-- ===== src/Fs/Setup.antt =====
-- `initialize` of targetd/fs.py, and the mounted file systems of targetd/mount.py.
pub mod Laws
use targetd.Prelude.{
  Bool, true, false, not, ◌==◌, Text, codes, text_eq, member, List, [], ◌∷◌, ◌++◌, map,
  if◌then◌else◌,
}
use targetd.Prelude.Split.{split}
use targetd.Utils.Items.{item}
use targetd.Utils.Errors.{targetd_error, no_support, not_found_fs}
use targetd.Utils.Exec.{Exec, pure, raise, lift, gets, ◌>>=◌, ◌>>◌, raise_if, skip}
use targetd.Backends.Interface.{FsBackend}
use targetd.Backends.Zfs.Names.{Zfs}
use targetd.Backends.Zfs.Command.{Machine}
use targetd.Backends.Zfs.Pools
use targetd.Backends.Zfs.FileSystems.{zfs_fs_backend}
use targetd.Backends.Btrfs.Commands
use targetd.Backends.Btrfs.Commands.{Host}
use targetd.Backends.Btrfs.FileSystems.{btrfs_fs_backend}

abbrev onto_line : Bool → Text → List Text → List Text
onto_line _ line [] = line ∷ []
onto_line true line lines = line ∷ lines
onto_line false line (l ∷ lines) = (line ++ l) ∷ lines

-- `readlines`: each line with its line feed.
unfoldable pub readlines : Text → List Text
readlines [] = []
readlines (c ∷ s) = let rest = readlines s in onto_line (c == 10) (c ∷ []) rest

unfoldable pub mounted_filesystems : Text → List (List Text)
unfolding readlines
mounted_filesystems proc_mount = map (split b' ') (readlines proc_mount)

-- The pools of each module, as pairs of a mount point and a device.
pub record FsPools : Type 0 where
  pub zfs : List (Text × Text)
  pub btrfs : List (Text × Text)

abbrev pub no_pools : FsPools
no_pools = record { zfs = []; btrfs = [] }

module _ {W : Type 0} where
  -- `pools[filesystem].append(...)`, for the file systems of `pool_modules`.
  unfoldable pub forward : Text → Text → Text → FsPools → Exec W FsPools
  forward filesystem mount device pools =
      if text_eq filesystem (codes "zfs")
      then pure (record pools { zfs = pools.zfs ++ (mount, device) ∷ [] })
      else if text_eq filesystem (codes "btrfs")
      then pure (record pools { btrfs = pools.btrfs ++ (mount, device) ∷ [] })
      else raise (targetd_error no_support)

  -- The loop over the mounted file systems.
  unfoldable pub sort_mounts : List Text → List (List Text) → FsPools → Exec W FsPools
  unfolding forward
  sort_mounts all_fs_pools [] pools = pure pools
  sort_mounts all_fs_pools (info ∷ infos) pools = do
    mount ← lift (item 1 info)
    pools' ←
        if member mount all_fs_pools
        then (lift (item 2 info) >>= λ filesystem.
            lift (item 0 info) >>= λ device. forward filesystem mount device pools)
        else pure pools
    sort_mounts all_fs_pools infos pools'

module _ {W : Type 0} (m : Machine W) (h : Host W) (proc_mounts : Exec W Text) where
  -- The loop that looks for the pools.
  unfoldable pub check_there : List Text → Exec W (Unit {0})
  check_there [] = skip
  check_there (mount ∷ mounts) = do
    there ← gets (h.path_exists mount)
    raise_if (not there) (targetd_error not_found_fs)
    check_there mounts

  -- The variables of the two modules behind it: those of zfs, and the pools of btrfs.
  unfoldable pub initialize : Zfs → Bool → List Text → Exec W (Zfs × List Text)
  unfolding check_there sort_mounts
  initialize zfs zfs_enable_copy all_fs_pools = do
    check_there all_fs_pools
    contents ← proc_mounts
    pools ← sort_mounts all_fs_pools (mounted_filesystems contents) no_pools
    zfs' ← Pools.fs_initialize m zfs zfs_enable_copy pools.zfs
    btrfs' ← Commands.fs_initialize h (map (λ p. p.0) pools.btrfs)
    pure (zfs', btrfs')

  abbrev pub pool_modules : Zfs × List Text → List (FsBackend W)
  pool_modules (zfs, btrfs) = zfs_fs_backend m zfs ∷ btrfs_fs_backend h btrfs ∷ []
