-- ===== src/Fs/Frame/Systems.antt =====
-- The functions on file systems of targetd/fs.py put no initiator into a second access group.
use targetd.Prelude.{
  ◌≡◌, refl, subst, arith, ℕ, Bool-cases, inl, inr, Text, Option, none, some, List, [], ◌∷◌, ◌++◌,
}
use targetd.Prelude.Dict.{Dict, update}
use targetd.Utils.Errors.{Result, ok, err}
use targetd.Utils.Exec.{Exec, lift, ◌>>=◌}
use targetd.Utils.Keeps.{keeps_rules, pure-Keeps, >>=-Keeps}
use targetd.Backends.Interface.{FsBackend, FileSystem}
use targetd.Block.AccessGroups.{Group}
use targetd.Block.Frame.{KeepsGroups, of_shrinks}
use targetd.Fs.Frame.{FsModuleShrinks, AllFsModules}
use targetd.Fs.Systems.{
  pool_module, fs_pools, fs_hash_from, fs_hash, fs, fs_create, get_fs_by_uuid, fs_snapshot, ss_of,
  ss, get_ss_by_uuid, fs_snapshot_delete, fs_destroy, clone_source, fs_clone,
}

-- What a module does, by its laws.
module _ {W : Type 0} {groups : W → List Group} {b : FsBackend W}
    (x : FsModuleShrinks groups b) where
  fs_create_of : (pool name : Text) (size : ℕ) → KeepsGroups groups (b.fs_create pool name size)
  fs_create_of pool name size = of_shrinks (x.fs_create pool name size)

  fs_snapshot_of : (pool name s : Text) → KeepsGroups groups (b.fs_snapshot pool name s)
  fs_snapshot_of pool name s = of_shrinks (x.fs_snapshot pool name s)

  fs_snapshot_delete_of :
      (pool name s : Text) → KeepsGroups groups (b.fs_snapshot_delete pool name s)
  fs_snapshot_delete_of pool name s = of_shrinks (x.fs_snapshot_delete pool name s)

  fs_destroy_of : (pool name : Text) → KeepsGroups groups (b.fs_destroy pool name)
  fs_destroy_of pool name = of_shrinks (x.fs_destroy pool name)

  snapshots_of : (pool name : Text) → KeepsGroups groups (b.ss pool name)
  snapshots_of pool name = of_shrinks (x.ss pool name)

  fs_clone_of :
      (pool name dest : Text) (source : Option Text)
      → KeepsGroups groups (b.fs_clone pool name dest source)
  fs_clone_of pool name dest source = of_shrinks (x.fs_clone pool name dest source)

ruleset module_rules =
    (fs_create_of, fs_snapshot_of, fs_snapshot_delete_of, fs_destroy_of, snapshots_of, fs_clone_of)

module _ {W : Type 0} (groups : W → List Group) where
  pool_module-Shrinks :
      (mods : List (FsBackend W)) (pool : Text) (b : FsBackend W)
      → AllFsModules groups mods
      → pool_module mods pool ≡ ok b
      → FsModuleShrinks groups b
  unfolding pool_module
  pool_module-Shrinks [] pool b all e = absurd (ground (arith, e))
  pool_module-Shrinks (c ∷ mods) pool b (first, all) e = elim (Bool-cases (c.has_fs_pool pool)) [
    | inl own ↦ subst (FsModuleShrinks groups) (ground (arith, own, e)) first
    | inr other ↦ pool_module-Shrinks mods pool b all (ground (arith, other, e))
  ]

  pool_module-Keeps :
      {A : Type 0} (mods : List (FsBackend W))
      → AllFsModules groups mods
      → {f : FsBackend W → Exec W A}
      → ((b : FsBackend W) → FsModuleShrinks groups b → KeepsGroups groups (f b))
      → (pool : Text) → KeepsGroups groups (lift (pool_module mods pool) >>= f)
  pool_module-Keeps mods all {f} rest pool = found (pool_module mods pool) refl
    where
      found :
          (r : Result (FsBackend W)) → pool_module mods pool ≡ r → KeepsGroups groups (lift r >>= f)
      found (ok b) e = record { keeps = (rest b (pool_module-Shrinks mods pool b all e)).keeps }
      found (err x) e = record { keeps = λ w h. h }

  fs_hash_from-Keeps :
      (found : Dict FileSystem) (mods : List (FsBackend W))
      → AllFsModules groups mods
      → KeepsGroups groups (fs_hash_from found mods)
  unfolding fs_hash_from
  fs_hash_from-Keeps found [] all = pure-Keeps found
  fs_hash_from-Keeps found (b ∷ mods) (x, all) =
      >>=-Keeps (of_shrinks x.fs_hash) (λ more. fs_hash_from-Keeps (update found more) mods all)

  pub fs_pools-Keeps :
      (mods : List (FsBackend W)) → AllFsModules groups mods → KeepsGroups groups (fs_pools mods)
  unfolding fs_pools
  fs_pools-Keeps [] all = pure-Keeps []
  fs_pools-Keeps (b ∷ mods) (x, all) =
      >>=-Keeps (of_shrinks x.fs_pools)
        (λ these. >>=-Keeps (fs_pools-Keeps mods all) (λ rest. pure-Keeps (these ++ rest)))

module _ {W : Type 0} (groups : W → List Group) (mods : List (FsBackend W))
    (all : AllFsModules groups mods) where
  pub fs-Keeps : KeepsGroups groups (fs mods)
  unfolding fs fs_hash
  fs-Keeps = >>=-Keeps (fs_hash_from-Keeps groups [] mods all) (λ found. pure-Keeps _)

  pub fs_create-Keeps :
      (pool name : Text) (size : ℕ) → KeepsGroups groups (fs_create mods pool name size)
  unfolding fs_create
  fs_create-Keeps pool name size = search (pool_module-Keeps groups mods all, module_rules)

  get_fs_by_uuid-Keeps : (uuid : Text) → KeepsGroups groups (get_fs_by_uuid mods uuid)
  unfolding get_fs_by_uuid
  get_fs_by_uuid-Keeps uuid = search (fs-Keeps, keeps_rules)

  pub fs_snapshot-Keeps : (uuid s : Text) → KeepsGroups groups (fs_snapshot mods uuid s)
  unfolding fs_snapshot
  fs_snapshot-Keeps uuid s =
      search (get_fs_by_uuid-Keeps, pool_module-Keeps groups mods all, keeps_rules, module_rules)

  ss_of-Keeps : (f : FileSystem) → KeepsGroups groups (ss_of mods f)
  unfolding ss_of
  ss_of-Keeps f = search (pool_module-Keeps groups mods all, module_rules)

  pub ss-Keeps : (uuid : Text) → KeepsGroups groups (ss mods uuid)
  unfolding ss
  ss-Keeps uuid = search (get_fs_by_uuid-Keeps, ss_of-Keeps, keeps_rules)

  get_ss_by_uuid-Keeps :
      (uuid ss_uuid : Text) (f : Option FileSystem)
      → KeepsGroups groups (get_ss_by_uuid mods uuid ss_uuid f)
  unfolding get_ss_by_uuid
  get_ss_by_uuid-Keeps uuid ss_uuid none = search (get_fs_by_uuid-Keeps, ss_of-Keeps, keeps_rules)
  get_ss_by_uuid-Keeps uuid ss_uuid (some f) = search (ss_of-Keeps, keeps_rules)

  pub fs_snapshot_delete-Keeps :
      (uuid ss_uuid : Text) → KeepsGroups groups (fs_snapshot_delete mods uuid ss_uuid)
  unfolding fs_snapshot_delete
  fs_snapshot_delete-Keeps uuid ss_uuid = search (
    get_fs_by_uuid-Keeps,
    get_ss_by_uuid-Keeps,
    pool_module-Keeps groups mods all,
    keeps_rules,
    module_rules,
  )

  pub fs_destroy-Keeps : (uuid : Text) → KeepsGroups groups (fs_destroy mods uuid)
  unfolding fs_destroy
  fs_destroy-Keeps uuid =
      search (get_fs_by_uuid-Keeps, pool_module-Keeps groups mods all, keeps_rules, module_rules)

  clone_source-Keeps :
      (uuid : Text) (s : Option Text) → KeepsGroups groups (clone_source mods uuid s)
  unfolding clone_source
  clone_source-Keeps uuid none = search keeps_rules
  clone_source-Keeps uuid (some []) = search keeps_rules
  clone_source-Keeps uuid (some (c ∷ s)) = search (get_ss_by_uuid-Keeps, keeps_rules)

  pub fs_clone-Keeps :
      (uuid dest : Text) (s : Option Text) → KeepsGroups groups (fs_clone mods uuid dest s)
  unfolding fs_clone
  fs_clone-Keeps uuid dest s = search (
    get_fs_by_uuid-Keeps,
    clone_source-Keeps,
    pool_module-Keeps groups mods all,
    keeps_rules,
    module_rules,
  )
