-- ===== src/Backends/Zfs/Pools.antt =====
-- The pools of targetd/backends/zfs.py: their checks, their registration and their sizes.
pub mod Laws
use targetd.Prelude.{
  ℕ, ◌+◌, Bool, true, false, not, ◌||◌, Text, codes, text_eq, has_code, Option, none, some, List,
  [], ◌∷◌, ◌++◌, any, if◌then◌else◌,
}
use targetd.Prelude.Dict.{Dict, lookup, values, insert, update}
use targetd.Utils.Errors.{targetd_error, invalid, key_error}
use targetd.Utils.Exec.{Exec, pure, raise, lift, ◌>>=◌, ◌>>◌, raise_if, skip}
use targetd.Backends.Interface.{PoolInfo}
use targetd.Backends.Zfs.Names.{Zfs, has_nested}
use targetd.Backends.Zfs.Command.{Machine}
use targetd.Backends.Zfs.Get.{Properties, zfs_get, property, number}

abbrev pub is_nil : Text → Bool
is_nil [] = true
is_nil (c ∷ s) = false

abbrev no_pools : List Text → Bool
no_pools [] = true
no_pools (p ∷ ps) = false

-- The check of one pool: its dataset is there, and it is a file system.
unfoldable pub pool_is_invalid : Properties → Text → Bool
pool_is_invalid props p = elim (lookup p props) [
  | none ↦ true
  | some q ↦ elim (lookup (codes "type") q) [
    | none ↦ true
    | some t ↦ not (text_eq t (codes "filesystem"))
  ]
]

module _ {W : Type 0} (m : Machine W) where
  -- `_zfs_find_cmd`, with the two searches of `shutil.which` as one.
  unfoldable pub zfs_find_cmd : Exec W Text
  zfs_find_cmd w = elim (m.which_zfs w) [
    | none ↦ raise (targetd_error invalid) w
    | some cmd ↦ if is_nil cmd then raise (targetd_error invalid) w else pure cmd w
  ]

  -- The part of `check_pools_access` that asks zfs.
  unfoldable pub check_datasets : Zfs → List Text → Exec W Zfs
  check_datasets zfs check_pools = do
    cmd ← zfs_find_cmd
    props ← zfs_get m cmd check_pools (codes "type" ∷ codes "name" ∷ []) false (codes "all")
    raise_if (any (pool_is_invalid props) check_pools) (targetd_error invalid)
    pure (record zfs { zfs_cmd = cmd })

  -- The module's variables behind the check, which sets `zfs_cmd` if there is a pool. An exception
  -- of the initialisation ends the program, so what it leaves behind is not modelled.
  unfoldable pub check_pools_access : Zfs → List Text → Exec W Zfs
  check_pools_access zfs check_pools = do
    raise_if (has_nested check_pools) (targetd_error invalid)
    raise_if (any (λ p. has_code b':' p) check_pools) (targetd_error invalid)
    if no_pools check_pools then pure zfs else check_datasets zfs check_pools

  unfoldable pub initialize : Zfs → Bool → List Text → Exec W Zfs
  initialize zfs enable_copy init_pools = do
    zfs' ←
        check_pools_access (record zfs { zfs_enable_copy = zfs.zfs_enable_copy || enable_copy })
          init_pools
    pure (record zfs' { pools = init_pools })

  -- The pools are given as pairs of a mount point and a device.
  unfoldable pub fs_initialize : Zfs → Bool → List (Text × Text) → Exec W Zfs
  fs_initialize zfs enable_copy init_pools =
      check_pools_access
        (record zfs {
          zfs_enable_copy = zfs.zfs_enable_copy || enable_copy;
          pools_fs = update [] init_pools;
        })
        (values (update [] init_pools))

  -- `props[pool]`
  abbrev pub entry : Text → Properties → Exec W (Dict Text)
  entry pool props = elim (lookup pool props) [ some q ↦ pure q | none ↦ raise key_error ]

  -- The loop of `block_pools`.
  unfoldable pub pool_infos : List Text → Properties → Exec W (List PoolInfo)
  pool_infos [] props = pure []
  pool_infos (pool ∷ pools) props = do
    q ← entry pool props
    available ← lift (number (codes "available") q)
    used ← lift (number (codes "used") q)
    uuid ← lift (property (codes "guid") q)
    _ ← lift (number (codes "guid") q)
    rest ← pool_infos pools props
    pure (
        record { name = pool; size = available + used; free_size = available; uuid = some uuid }
        ∷ rest)

  unfoldable pub block_pools : Zfs → Exec W (List PoolInfo)
  unfolding pool_infos
  block_pools zfs =
      if is_nil zfs.zfs_cmd
      then pure []
      else (zfs_get m zfs.zfs_cmd zfs.pools (codes "available" ∷ codes "used" ∷ codes "guid" ∷ [])
            false (codes "all")
          >>= λ props. pool_infos zfs.pools props)

  -- The loop of `fs_pools`, over the mount points and the datasets.
  unfoldable pub fs_pools_of : Text → Dict Text → Exec W (List PoolInfo)
  fs_pools_of zfs_cmd [] = pure []
  fs_pools_of zfs_cmd ((pool, zfs_pool) ∷ pools) = do
    allprops ←
        zfs_get m zfs_cmd (zfs_pool ∷ []) (codes "name" ∷ codes "used" ∷ codes "available" ∷ [])
          false (codes "filesystem")
    this ← elim (lookup zfs_pool allprops) [
      | none ↦ pure []
      | some props ↦
          (lift (number (codes "used") props) >>= λ used.
          lift (number (codes "available") props) >>= λ available. pure (
            record { name = pool; size = used + available; free_size = available; uuid = none }
            ∷ []))
    ]
    rest ← fs_pools_of zfs_cmd pools
    pure (this ++ rest)

  unfoldable pub fs_pools : Zfs → Exec W (List PoolInfo)
  unfolding fs_pools_of
  fs_pools zfs = fs_pools_of zfs.zfs_cmd zfs.pools_fs
