-- ===== src/Block/Volumes.antt =====
-- The volume operations of targetd/block.py, over the list of back ends in the order of
-- `pool_modules`. What rtslib tells of the iSCSI target is a parameter.
pub mod Laws
use targetd.Prelude.{
  ℕ, Bool, true, false, not, ◌&&◌, ◌||◌, leb, Text, text_eq, member, Option, none, some, List, [],
  ◌∷◌, ◌++◌, any, if◌then◌else◌,
}
use targetd.Utils.Errors.{
  Result, ok, err, targetd_error, invalid_pool, name_conflict, not_found_volume, volume_masked,
  invalid_argument, invalid,
}
use targetd.Utils.Exec.{Exec, pure, raise, lift, ◌>>=◌, ◌>>◌, raise_if, skip}
use targetd.Backends.Interface.{Volume, PoolInfo, BlockBackend}

module _ {W : Type 0} where
  -- The first back end that has the pool.
  unfoldable pub pool_module : List (BlockBackend W) → Text → Result (BlockBackend W)
  pool_module [] pool_name = err (targetd_error invalid_pool)
  pool_module (mod' ∷ mods) pool_name =
      if mod'.has_pool pool_name then ok mod' else pool_module mods pool_name

  unfoldable pub udev_path_module : List (BlockBackend W) → Text → Result (BlockBackend W)
  udev_path_module [] udev_path = err (targetd_error invalid_pool)
  udev_path_module (mod' ∷ mods) udev_path =
      if mod'.has_udev_path udev_path then ok mod' else udev_path_module mods udev_path

  -- A back end that cannot read the name raises, and the later ones are not asked.
  unfoldable pub so_name_module : List (BlockBackend W) → Text → Result (BlockBackend W)
  so_name_module [] so_name = err (targetd_error invalid_pool)
  so_name_module (mod' ∷ mods) so_name = elim (mod'.has_so_name so_name) [
    | err e ↦ err e
    | ok has ↦ if has then ok mod' else so_name_module mods so_name
  ]

-- `any(v["name"] == name for v in volumes)`
abbrev pub has_volume : Text → List Volume → Bool
has_volume name = any (λ v. text_eq v.name name)

-- `v["name"] == name and v["size"] >= size`, for some volume.
abbrev pub has_as_large : Text → ℕ → List Volume → Bool
has_as_large name size = any (λ v. text_eq v.name name && leb size v.size)

-- The loop over the volumes that refuses a size which is not larger.
unfoldable pub check_larger : {W : Type 0} → BlockBackend W → Text → Text → ℕ → Exec W (Unit {0})
check_larger mod' pool name size = do
  vs ← mod'.volumes pool
  raise_if (has_as_large name size vs) (targetd_error invalid_argument)

module _ {W : Type 0} (pool_modules : List (BlockBackend W)) where
  unfoldable pub volumes : Text → Exec W (List Volume)
  volumes pool = do mod' ← lift (pool_module pool_modules pool); mod'.volumes pool

  unfoldable pub check_vol_exists : Text → Text → Exec W Bool
  check_vol_exists pool name = do
    mod' ← lift (pool_module pool_modules pool)
    vs ← mod'.volumes pool
    pure (has_volume name vs)

  unfoldable pub create : Text → Text → ℕ → Exec W (Unit {0})
  unfolding check_vol_exists
  create pool name size = do
    mod' ← lift (pool_module pool_modules pool)
    exists ← check_vol_exists pool name
    raise_if exists (targetd_error name_conflict)
    mod'.create pool name size

  unfoldable pub get_so_name : Text → Text → Result Text
  get_so_name pool volname = elim (pool_module pool_modules pool) [
    | ok mod' ↦ mod'.get_so_name pool volname
    | err e ↦ err e
  ]

  -- `luns` are the names of the storage objects that the target exports, or nothing if the target
  -- or its portal group is not in configfs (`RTSLibNotInCFS`, which is ignored).
  unfoldable pub check_not_exported : (W → Option (List Text)) → Text → Text → Exec W (Unit {0})
  check_not_exported luns pool name w = elim (luns w) [
    | none ↦ skip w
    | some names ↦
        (lift (get_so_name pool name) >>= λ so_name.
        raise_if (member so_name names) (targetd_error volume_masked))
          w
  ]

  unfoldable pub destroy : (W → Option (List Text)) → Text → Text → Exec W (Unit {0})
  unfolding check_vol_exists check_not_exported
  destroy luns pool name = do
    mod' ← lift (pool_module pool_modules pool)
    exists ← check_vol_exists pool name
    raise_if (not exists) (targetd_error not_found_volume)
    check_not_exported luns pool name
    mod'.destroy pool name

  unfoldable pub copy : Text → Text → Text → Option ℕ → Exec W (Unit {0})
  unfolding check_vol_exists check_larger
  copy pool vol_orig vol_new size = do
    mod' ← lift (pool_module pool_modules pool)
    exists ← check_vol_exists pool vol_orig
    raise_if (not exists) (targetd_error not_found_volume)
    elim size [ none ↦ skip | some bytes ↦ check_larger mod' pool vol_orig bytes ]
    mod'.copy pool vol_orig vol_new size

  unfoldable pub resize : Text → Text → ℕ → Exec W (Unit {0})
  unfolding check_vol_exists check_larger
  resize pool name size = do
    mod' ← lift (pool_module pool_modules pool)
    exists ← check_vol_exists pool name
    raise_if (not exists) (targetd_error not_found_volume)
    check_larger mod' pool name size
    mod'.resize pool name size

-- The loop of `block_pools`.
unfoldable pub block_pools : {W : Type 0} → List (BlockBackend W) → Exec W (List PoolInfo)
block_pools [] = pure []
block_pools (mod' ∷ mods) = do
  results ← mod'.block_pools
  rest ← block_pools mods
  pure (results ++ rest)
