-- ===== src/Block/Frame/Volumes.antt =====
-- The functions on volumes of targetd/block.py put no initiator into a second access group.
use targetd.Prelude.{ℕ, Text, inl, inr, member, Option-cases, Option, none, some, List, [], ◌∷◌}
use targetd.Utils.Errors.{targetd_error, volume_masked}
use targetd.Utils.Exec.{raise_if, lift, ◌>>=◌}
use targetd.Utils.Keeps.{keeps_rules, pure-Keeps, >>=-Keeps}
use targetd.Backends.Interface.{BlockBackend}
use targetd.Block.AccessGroups.{Group}
use targetd.Block.Frame.{KeepsGroups, ModuleShrinks}
use targetd.Block.Frame.Modules.{AllModules, pool_module-Keeps, volumes_of, pools_of, module_rules}
use targetd.Block.Volumes.{
  volumes, create, destroy, copy, resize, check_vol_exists, check_not_exported, check_larger,
  get_so_name, block_pools,
}

module _ {W : Type 0} (groups : W → List Group) (mods : List (BlockBackend W))
    (all : AllModules groups mods) where
  pub volumes-Keeps : (pool : Text) → KeepsGroups groups (volumes mods pool)
  unfolding volumes
  volumes-Keeps pool = search (pool_module-Keeps groups mods all, volumes_of)

  check_vol_exists-Keeps : (pool name : Text) → KeepsGroups groups (check_vol_exists mods pool name)
  unfolding check_vol_exists
  check_vol_exists-Keeps pool name =
      search (pool_module-Keeps groups mods all, keeps_rules, module_rules)

  pub create-Keeps : (pool name : Text) (n : ℕ) → KeepsGroups groups (create mods pool name n)
  unfolding create
  create-Keeps pool name n =
      search (pool_module-Keeps groups mods all, check_vol_exists-Keeps, keeps_rules, module_rules)

  check_not_exported-Keeps :
      (luns : W → Option (List Text)) (pool name : Text)
      → KeepsGroups groups (check_not_exported mods luns pool name)
  unfolding check_not_exported
  check_not_exported-Keeps luns pool name = record {
    keeps = λ w h. elim (Option-cases (luns w)) [
      | inl e ↦ rw (e, check_not_exported) h
      | inr (names, e) ↦
          let refuse : KeepsGroups groups (
              lift (get_so_name mods pool name) >>= λ so_name.
              raise_if (member so_name names) (targetd_error volume_masked)) =
            search keeps_rules in
          rw (e, check_not_exported) (refuse.keeps w h)
    ];
  }

  pub destroy-Keeps :
      (luns : W → Option (List Text)) (pool name : Text)
      → KeepsGroups groups (destroy mods luns pool name)
  unfolding destroy
  destroy-Keeps luns pool name = search (
    pool_module-Keeps groups mods all,
    check_vol_exists-Keeps,
    check_not_exported-Keeps,
    keeps_rules,
    module_rules,
  )

  check_larger-Keeps :
      {b : BlockBackend W} (x : ModuleShrinks groups b) (pool name : Text) (size : ℕ)
      → KeepsGroups groups (check_larger b pool name size)
  unfolding check_larger
  check_larger-Keeps x pool name size = search (keeps_rules, module_rules)

  pub copy-Keeps :
      (pool vol_orig vol_new : Text) (size : Option ℕ)
      → KeepsGroups groups (copy mods pool vol_orig vol_new size)
  unfolding copy
  copy-Keeps pool vol_orig vol_new none =
      search (pool_module-Keeps groups mods all, check_vol_exists-Keeps, keeps_rules, module_rules)
  copy-Keeps pool vol_orig vol_new (some n) = search (
    pool_module-Keeps groups mods all,
    check_vol_exists-Keeps,
    check_larger-Keeps,
    keeps_rules,
    module_rules,
  )

  pub resize-Keeps : (pool name : Text) (n : ℕ) → KeepsGroups groups (resize mods pool name n)
  unfolding resize
  resize-Keeps pool name n = search (
    pool_module-Keeps groups mods all,
    check_vol_exists-Keeps,
    check_larger-Keeps,
    keeps_rules,
    module_rules,
  )

pub block_pools-Keeps :
    {W : Type 0} (groups : W → List Group) (mods : List (BlockBackend W))
    → AllModules groups mods
    → KeepsGroups groups (block_pools mods)
unfolding block_pools
block_pools-Keeps groups [] all = search keeps_rules
block_pools-Keeps groups (b ∷ mods) (x, all) =
    >>=-Keeps (pools_of x) (λ _. >>=-Keeps (block_pools-Keeps groups mods all) (λ _. pure-Keeps _))
