-- ===== src/Block/Frame/Modules.antt =====
-- What holds of the module that targetd/block.py finds for a pool or a path.
use targetd.Prelude.{◌≡◌, refl, subst, arith, ℕ, Bool-cases, inl, inr, Text, Option, List, [], ◌∷◌}
use targetd.Utils.Errors.{Result, ok, err}
use targetd.Utils.Exec.{Exec, lift, ◌>>=◌}
use targetd.Backends.Interface.{BlockBackend}
use targetd.Block.AccessGroups.{Group}
use targetd.Block.Volumes.{pool_module, udev_path_module}
use targetd.Block.Frame.{KeepsGroups, ModuleShrinks, of_shrinks}

-- What a module does, by its laws.
module _ {W : Type 0} {groups : W → List Group} {b : BlockBackend W}
    (x : ModuleShrinks groups b) where
  pub volumes_of : (pool : Text) → KeepsGroups groups (b.volumes pool)
  volumes_of pool = of_shrinks (x.volumes pool)

  pub create_of : (pool name : Text) (size : ℕ) → KeepsGroups groups (b.create pool name size)
  create_of pool name size = of_shrinks (x.create pool name size)

  pub destroy_of : (pool name : Text) → KeepsGroups groups (b.destroy pool name)
  destroy_of pool name = of_shrinks (x.destroy pool name)

  pub copy_of :
      (pool vol_orig vol_new : Text) (size : Option ℕ)
      → KeepsGroups groups (b.copy pool vol_orig vol_new size)
  copy_of pool vol_orig vol_new size = of_shrinks (x.copy pool vol_orig vol_new size)

  pub resize_of : (pool name : Text) (size : ℕ) → KeepsGroups groups (b.resize pool name size)
  resize_of pool name size = of_shrinks (x.resize pool name size)

  pub vol_info_of : (pool name : Text) → KeepsGroups groups (b.vol_info pool name)
  vol_info_of pool name = of_shrinks (x.vol_info pool name)

  pub pools_of : KeepsGroups groups b.block_pools
  pools_of = of_shrinks x.block_pools

pub ruleset module_rules =
    (volumes_of, create_of, destroy_of, copy_of, resize_of, vol_info_of, pools_of)

-- What holds of every module of a list.
abbrev pub AllModules : {W : Type 0} → (W → List Group) → List (BlockBackend W) → Type 0
AllModules groups [] = Unit {0}
AllModules groups (b ∷ mods) = ModuleShrinks groups b × AllModules groups mods

module _ {W : Type 0} (groups : W → List Group) where
  pool_module-Shrinks :
      (mods : List (BlockBackend W)) (pool : Text) (b : BlockBackend W)
      → AllModules groups mods
      → pool_module mods pool ≡ ok b
      → ModuleShrinks groups b
  unfolding pool_module
  pool_module-Shrinks [] pool b all e = absurd (ground (arith, e))
  pool_module-Shrinks (c ∷ mods) pool b (first, all) e = elim (Bool-cases (c.has_pool pool)) [
    | inl own ↦ subst (ModuleShrinks groups) (ground (arith, own, e)) first
    | inr other ↦ pool_module-Shrinks mods pool b all (ground (arith, other, e))
  ]

  udev_path_module-Shrinks :
      (mods : List (BlockBackend W)) (path : Text) (b : BlockBackend W)
      → AllModules groups mods
      → udev_path_module mods path ≡ ok b
      → ModuleShrinks groups b
  unfolding udev_path_module
  udev_path_module-Shrinks [] path b all e = absurd (ground (arith, e))
  udev_path_module-Shrinks (c ∷ mods) path b (first, all) e =
      elim (Bool-cases (c.has_udev_path path)) [
        | inl own ↦ subst (ModuleShrinks groups) (ground (arith, own, e)) first
        | inr other ↦ udev_path_module-Shrinks mods path b all (ground (arith, other, e))
      ]

  -- Code behind the search for the module of a pool or a path.
  module _ {A : Type 0} (mods : List (BlockBackend W)) (all : AllModules groups mods)
      {f : BlockBackend W → Exec W A}
      (rest : (b : BlockBackend W) → ModuleShrinks groups b → KeepsGroups groups (f b)) where
    pub pool_module-Keeps : (pool : Text) → KeepsGroups groups (lift (pool_module mods pool) >>= f)
    pool_module-Keeps pool = found (pool_module mods pool) refl
      where
        found :
            (r : Result (BlockBackend W))
            → pool_module mods pool ≡ r
            → KeepsGroups groups (lift r >>= f)
        found (ok b) e = record { keeps = (rest b (pool_module-Shrinks mods pool b all e)).keeps }
        found (err x) e = record { keeps = λ w h. h }

    pub udev_path_module-Keeps :
        (path : Text) → KeepsGroups groups (lift (udev_path_module mods path) >>= f)
    udev_path_module-Keeps path = found (udev_path_module mods path) refl
      where
        found :
            (r : Result (BlockBackend W))
            → udev_path_module mods path ≡ r
            → KeepsGroups groups (lift r >>= f)
        found (ok b) e = record {
          keeps = (rest b (udev_path_module-Shrinks mods path b all e)).keeps;
        }
        found (err x) e = record { keeps = λ w h. h }
