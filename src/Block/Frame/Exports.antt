-- ===== src/Block/Frame/Exports.antt =====
-- The functions on exports of targetd/block.py put no initiator into a second access group.
use targetd.Prelude.{ℕ, Text, Option, none, some, List, [], ◌∷◌, ◌++◌, Bool-cases, inl, inr}
use targetd.Utils.Exec.{pure, gets, ◌>>=◌, ◌>>◌}
use targetd.Utils.Keeps.{keeps_rules}
use targetd.Block.AccessGroups.{Group}
use targetd.Block.Mappings.{is_empty}
use targetd.Block.Parts.{Parts}
use targetd.Block.Frame.{KeepsGroups, RtslibShrinks}
use targetd.Block.Frame.Calls.{delete_target_of, rtslib_rules}
use targetd.Block.Frame.Modules.{AllModules, udev_path_module-Keeps, module_rules}
use targetd.Block.Frame.Mappings.{tpg_lun_of-Keeps, tidy-Keeps}
use targetd.Block.Exports.{
  export_of, exports_of, all_exports, export_list, export_create, unmap, prune_target, prune_tpg,
  prune, export_destroy, initiator_set_auth,
}

module _ {W Storage Lun : Type 0} (p : Parts W Storage Lun) (groups : W → List Group)
    (laws : RtslibShrinks p groups) (all : AllModules groups p.pool_modules) where
  export_of-Keeps :
      (wwn : Text) (n : ℕ) (l : Lun)
      → KeepsGroups groups (export_of p.rtslib p.node_acls p.pool_modules wwn n l)
  unfolding export_of
  export_of-Keeps wwn n l =
      search (udev_path_module-Keeps groups p.pool_modules all, keeps_rules, module_rules) depth 12

  exports_step :
      (wwn : Text) (n : ℕ) (l : Lun) (mapped : List (ℕ × Lun))
      → KeepsGroups groups (exports_of p.rtslib p.node_acls p.pool_modules wwn mapped)
      → KeepsGroups groups (
          export_of p.rtslib p.node_acls p.pool_modules wwn n l >>= λ e.
          exports_of p.rtslib p.node_acls p.pool_modules wwn mapped >>= λ rest. pure (e ∷ rest))
  exports_step wwn n l mapped rest = search (export_of-Keeps, keeps_rules)

  exports_of-Keeps :
      (wwn : Text) (mapped : List (ℕ × Lun))
      → KeepsGroups groups (exports_of p.rtslib p.node_acls p.pool_modules wwn mapped)
  unfolding exports_of
  exports_of-Keeps wwn [] = search keeps_rules
  exports_of-Keeps wwn ((n, l) ∷ mapped) = exports_step wwn n l mapped (exports_of-Keeps wwn mapped)

  all_step :
      (wwn : Text) (wwns : List Text)
      → KeepsGroups groups (all_exports p.rtslib p.node_acls p.pool_modules wwns)
      → KeepsGroups groups (
          gets (p.node_acls.mapped_of wwn) >>= λ mapped.
          exports_of p.rtslib p.node_acls p.pool_modules wwn mapped >>= λ these.
          all_exports p.rtslib p.node_acls p.pool_modules wwns >>= λ rest. pure (these ++ rest))
  all_step wwn wwns rest = search (exports_of-Keeps, keeps_rules)

  all_exports-Keeps :
      (wwns : List Text) → KeepsGroups groups (all_exports p.rtslib p.node_acls p.pool_modules wwns)
  unfolding all_exports
  all_exports-Keeps [] = search keeps_rules
  all_exports-Keeps (wwn ∷ wwns) = all_step wwn wwns (all_exports-Keeps wwns)

  pub export_list-Keeps : KeepsGroups groups (export_list p.rtslib p.node_acls p.pool_modules)
  unfolding export_list
  export_list-Keeps = search (all_exports-Keeps, keeps_rules, rtslib_rules)

  pub export_create-Keeps :
      (pool vol wwn : Text) (n : ℕ)
      → KeepsGroups groups (export_create p.rtslib p.node_acls p.pool_modules pool vol wwn n)
  unfolding export_create
  export_create-Keeps pool vol wwn n =
      search (tpg_lun_of-Keeps p groups laws all, keeps_rules, rtslib_rules) depth 12

  unmap-Keeps :
      (wwn : Text) (found : Option (ℕ × Lun))
      → KeepsGroups groups (unmap p.rtslib p.node_acls p.pool_modules wwn found)
  unfolding unmap
  unmap-Keeps wwn none = search keeps_rules
  unmap-Keeps wwn (some (n, l)) = search (tidy-Keeps p groups laws all, keeps_rules, rtslib_rules)

  -- The deletions at the end of `export_destroy`.
  prune_target-Keeps : KeepsGroups groups (prune_target p.rtslib p.node_acls p.pool_modules)
  unfolding prune_target
  prune_target-Keeps = record {
    keeps = λ w h. elim (Bool-cases (p.node_acls.has_tpgs w)) [
      | inl there ↦ rw (there, prune_target) h
      | inr gone ↦ rw (gone, prune_target) ((delete_target_of laws).keeps w h)
    ];
  }

  prune_tpg-Keeps : KeepsGroups groups (prune_tpg p.rtslib p.node_acls p.pool_modules)
  unfolding prune_tpg
  prune_tpg-Keeps = record {
    keeps = λ w h. elim (Bool-cases (is_empty (p.node_acls.node_acls w))) [
      | inr used ↦ rw (used, prune_tpg) h
      | inl unused ↦
          let gone : KeepsGroups groups
              (p.node_acls.delete_tpg >> prune_target p.rtslib p.node_acls p.pool_modules) =
            search (prune_target-Keeps, keeps_rules, rtslib_rules) in
          rw (unused, prune_tpg) (gone.keeps w h)
    ];
  }

  prune-Keeps : (wwn : Text) → KeepsGroups groups (prune p.rtslib p.node_acls p.pool_modules wwn)
  unfolding prune
  prune-Keeps wwn = record {
    keeps = λ w h. elim (Bool-cases (is_empty (p.node_acls.mapped_of wwn w))) [
      | inr used ↦ rw (used, prune) h
      | inl unused ↦
          let gone : KeepsGroups groups
              (p.node_acls.delete_acl wwn >> prune_tpg p.rtslib p.node_acls p.pool_modules) =
            search (prune_tpg-Keeps, keeps_rules, rtslib_rules) in
          rw (unused, prune) (gone.keeps w h)
    ];
  }

  pub export_destroy-Keeps :
      (pool vol wwn : Text)
      → KeepsGroups groups (export_destroy p.rtslib p.node_acls p.pool_modules pool vol wwn)
  unfolding export_destroy
  export_destroy-Keeps pool vol wwn =
      search (unmap-Keeps, prune-Keeps, keeps_rules, rtslib_rules) depth 15

  pub initiator_set_auth-Keeps :
      (wwn : Text) (in_user in_pass out_user out_pass : Option Text)
      → KeepsGroups groups (
          initiator_set_auth p.rtslib p.node_acls p.pool_modules wwn in_user in_pass out_user
            out_pass)
  unfolding initiator_set_auth
  initiator_set_auth-Keeps wwn in_user in_pass out_user out_pass =
      search (keeps_rules, rtslib_rules) depth 15
