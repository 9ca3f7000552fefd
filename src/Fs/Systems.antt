-- ===== src/Fs/Systems.antt =====
-- The file system operations of targetd/fs.py, over the list of back ends in the order of
-- `pool_modules`.
pub mod Laws
use targetd.Prelude.{
  ℕ, Bool, true, false, not, ◌&&◌, Text, text_eq, Option, none, some, List, [], ◌∷◌, ◌++◌,
  if◌then◌else◌,
}
use targetd.Prelude.Dict.{Dict, insert, update, values}
use targetd.Utils.Errors.{Result, ok, err, targetd_error, invalid_pool, not_found_fs, not_found_ss}
use targetd.Utils.Exec.{Exec, pure, raise, lift, ◌>>=◌, ◌>>◌}
use targetd.Backends.Interface.{PoolInfo, FileSystem, Snapshot, FsBackend}

unfoldable pub pool_module : {W : Type 0} → List (FsBackend W) → Text → Result (FsBackend W)
pool_module [] pool_name = err (targetd_error invalid_pool)
pool_module (mod' ∷ mods) pool_name =
    if mod'.has_fs_pool pool_name then ok mod' else pool_module mods pool_name

-- The loop of `fs_pools`.
unfoldable pub fs_pools : {W : Type 0} → List (FsBackend W) → Exec W (List PoolInfo)
fs_pools [] = pure []
fs_pools (mod' ∷ mods) = do results ← mod'.fs_pools; rest ← fs_pools mods; pure (results ++ rest)

-- The loop of `_fs_hash`, with the dict collected so far.
unfoldable pub fs_hash_from :
    {W : Type 0} → Dict FileSystem → List (FsBackend W) → Exec W (Dict FileSystem)
fs_hash_from fs_list [] = pure fs_list
fs_hash_from fs_list (mod' ∷ mods) = do
  found ← mod'.fs_hash
  fs_hash_from (update fs_list found) mods

-- The loop of `_get_fs_by_uuid`.
unfoldable pub find_fs : Text → List FileSystem → Result FileSystem
find_fs fs_uuid [] = err (targetd_error not_found_fs)
find_fs fs_uuid (f ∷ fs) = if text_eq f.uuid fs_uuid then ok f else find_fs fs_uuid fs

-- The loop of `_get_ss_by_uuid`.
unfoldable pub find_ss : Text → List Snapshot → Result Snapshot
find_ss ss_uuid [] = err (targetd_error not_found_ss)
find_ss ss_uuid (s ∷ rest) = if text_eq s.uuid ss_uuid then ok s else find_ss ss_uuid rest

module _ {W : Type 0} (pool_modules : List (FsBackend W)) where
  unfoldable pub fs_hash : Exec W (Dict FileSystem)
  unfolding fs_hash_from
  fs_hash = fs_hash_from [] pool_modules

  unfoldable pub fs : Exec W (List FileSystem)
  unfolding fs_hash
  fs = do fs_list ← fs_hash; pure (values fs_list)

  unfoldable pub fs_create : Text → Text → ℕ → Exec W (Unit {0})
  fs_create pool_name name size_bytes = do
    mod' ← lift (pool_module pool_modules pool_name)
    mod'.fs_create pool_name name size_bytes

  unfoldable pub get_fs_by_uuid : Text → Exec W FileSystem
  unfolding fs
  get_fs_by_uuid fs_uuid = do all ← fs; lift (find_fs fs_uuid all)

  unfoldable pub fs_snapshot : Text → Text → Exec W (Unit {0})
  unfolding get_fs_by_uuid
  fs_snapshot fs_uuid dest_ss_name = do
    fs_ht ← get_fs_by_uuid fs_uuid
    mod' ← lift (pool_module pool_modules fs_ht.pool)
    mod'.fs_snapshot fs_ht.pool fs_ht.name dest_ss_name

  unfoldable pub ss_of : FileSystem → Exec W (List Snapshot)
  ss_of fs_cache = do
    mod' ← lift (pool_module pool_modules fs_cache.pool)
    mod'.ss fs_cache.pool fs_cache.name

  -- `ss(req, fs_uuid)`, without a cached file system.
  unfoldable pub ss : Text → Exec W (List Snapshot)
  unfolding get_fs_by_uuid ss_of
  ss fs_uuid = do fs_cache ← get_fs_by_uuid fs_uuid; ss_of fs_cache

  -- With `none` for `fs_ht` the file system is looked up once more.
  unfoldable pub get_ss_by_uuid : Text → Text → Option FileSystem → Exec W Snapshot
  unfolding get_fs_by_uuid ss_of
  get_ss_by_uuid fs_uuid ss_uuid fs_ht = do
    known ← elim fs_ht [ some f ↦ pure f | none ↦ get_fs_by_uuid fs_uuid ]
    snapshots ← ss_of known
    lift (find_ss ss_uuid snapshots)

  unfoldable pub fs_snapshot_delete : Text → Text → Exec W (Unit {0})
  unfolding get_fs_by_uuid get_ss_by_uuid
  fs_snapshot_delete fs_uuid ss_uuid = do
    fs_ht ← get_fs_by_uuid fs_uuid
    snapshot ← get_ss_by_uuid fs_uuid ss_uuid (some fs_ht)
    mod' ← lift (pool_module pool_modules fs_ht.pool)
    mod'.fs_snapshot_delete fs_ht.pool fs_ht.name snapshot.name

  unfoldable pub fs_destroy : Text → Exec W (Unit {0})
  unfolding get_fs_by_uuid
  fs_destroy uuid = do
    fs_ht ← get_fs_by_uuid uuid
    mod' ← lift (pool_module pool_modules fs_ht.pool)
    mod'.fs_destroy fs_ht.pool fs_ht.name

  -- `if snapshot_id: …`; an empty text counts as no snapshot.
  unfoldable pub clone_source : Text → Option Text → Exec W (Option Text)
  unfolding get_ss_by_uuid
  clone_source fs_uuid none = pure none
  clone_source fs_uuid (some []) = pure none
  clone_source fs_uuid (some (c ∷ s)) = do
    snapshot ← get_ss_by_uuid fs_uuid (c ∷ s) none
    pure (some snapshot.name)

  unfoldable pub fs_clone : Text → Text → Option Text → Exec W (Unit {0})
  unfolding get_fs_by_uuid clone_source
  fs_clone fs_uuid dest_fs_name snapshot_id = do
    fs_ht ← get_fs_by_uuid fs_uuid
    source ← clone_source fs_uuid snapshot_id
    mod' ← lift (pool_module pool_modules fs_ht.pool)
    mod'.fs_clone fs_ht.pool fs_ht.name dest_fs_name source
