-- ===== src/Block/Frame/Calls.antt =====
-- What each call of rtslib does to the access groups, as a rule.
use targetd.Prelude.{ℕ, Text, List}
use targetd.Block.AccessGroups.{Group}
use targetd.Block.Parts.{Parts}
use targetd.Block.Frame.{KeepsGroups, RtslibShrinks, of_shrinks}

module _ {W Storage Lun : Type 0} {p : Parts W Storage Lun} {groups : W → List Group}
    (x : RtslibShrinks p groups) where
  pub get_tpg_of : KeepsGroups groups p.target.get_iscsi_tpg
  get_tpg_of = of_shrinks x.get_tpg

  pub get_iscsi_tpg_of : KeepsGroups groups p.rtslib.get_iscsi_tpg
  get_iscsi_tpg_of = of_shrinks x.get_iscsi_tpg

  pub enable_of : KeepsGroups groups p.rtslib.enable
  enable_of = of_shrinks x.enable

  pub create_so_of : (name dev : Text) → KeepsGroups groups (p.rtslib.create_so name dev)
  create_so_of name dev = of_shrinks (x.create_so name dev)

  pub set_wwn_of : (so : Storage) (wwn : Text) → KeepsGroups groups (p.rtslib.set_wwn so wwn)
  set_wwn_of so wwn = of_shrinks (x.set_wwn so wwn)

  pub emulate_of : (so : Storage) → KeepsGroups groups (p.rtslib.emulate_model_alias so)
  emulate_of so = of_shrinks (x.emulate so)

  pub delete_so_of : (so : Storage) → KeepsGroups groups (p.rtslib.delete_so so)
  delete_so_of so = of_shrinks (x.delete_so so)

  pub new_lun_of : (so : Storage) → KeepsGroups groups (p.rtslib.new_lun so)
  new_lun_of so = of_shrinks (x.new_lun so)

  pub delete_lun_of : (l : Lun) → KeepsGroups groups (p.rtslib.delete_lun l)
  delete_lun_of l = of_shrinks (x.delete_lun l)

  pub map_for_group_of :
      (ag_name : Text) (n : ℕ) (l : Lun) → KeepsGroups groups (p.rtslib.map_lun ag_name n l)
  map_for_group_of ag_name n l = of_shrinks (x.map_for_group ag_name n l)

  pub unmap_lun_of : (ag_name : Text) (n : ℕ) → KeepsGroups groups (p.rtslib.unmap_lun ag_name n)
  unmap_lun_of ag_name n = of_shrinks (x.unmap_lun ag_name n)

  pub save_to_file_of : KeepsGroups groups p.rtslib.save_to_file
  save_to_file_of = of_shrinks x.save_to_file

  pub open_tpg_of : KeepsGroups groups p.node_acls.open_tpg
  open_tpg_of = of_shrinks x.open_tpg

  pub lookup_tpg_of : KeepsGroups groups p.node_acls.lookup_tpg
  lookup_tpg_of = of_shrinks x.lookup_tpg

  pub node_acl_of : (wwn : Text) → KeepsGroups groups (p.node_acls.node_acl wwn)
  node_acl_of wwn = of_shrinks (x.node_acl wwn)

  pub map_lun_of : (wwn : Text) (n : ℕ) (l : Lun) → KeepsGroups groups (p.node_acls.map_lun wwn n l)
  map_lun_of wwn n l = of_shrinks (x.map_lun wwn n l)

  pub delete_mapping_of :
      (wwn : Text) (n : ℕ) → KeepsGroups groups (p.node_acls.delete_mapping wwn n)
  delete_mapping_of wwn n = of_shrinks (x.delete_mapping wwn n)

  pub delete_acl_of : (wwn : Text) → KeepsGroups groups (p.node_acls.delete_acl wwn)
  delete_acl_of wwn = of_shrinks (x.delete_acl wwn)

  pub delete_tpg_of : KeepsGroups groups p.node_acls.delete_tpg
  delete_tpg_of = of_shrinks x.delete_tpg

  pub delete_target_of : KeepsGroups groups p.node_acls.delete_target
  delete_target_of = of_shrinks x.delete_target

  pub set_userid_of : (wwn s : Text) → KeepsGroups groups (p.node_acls.set_chap_userid wwn s)
  set_userid_of wwn s = of_shrinks (x.set_userid wwn s)

  pub set_password_of : (wwn s : Text) → KeepsGroups groups (p.node_acls.set_chap_password wwn s)
  set_password_of wwn s = of_shrinks (x.set_password wwn s)

  pub set_mutual_userid_of :
      (wwn s : Text) → KeepsGroups groups (p.node_acls.set_chap_mutual_userid wwn s)
  set_mutual_userid_of wwn s = of_shrinks (x.set_mutual_userid wwn s)

  pub set_mutual_password_of :
      (wwn s : Text) → KeepsGroups groups (p.node_acls.set_chap_mutual_password wwn s)
  set_mutual_password_of wwn s = of_shrinks (x.set_mutual_password wwn s)

pub ruleset rtslib_rules = (
  get_tpg_of, get_iscsi_tpg_of, enable_of, create_so_of, set_wwn_of, emulate_of, delete_so_of,
  new_lun_of, delete_lun_of, map_for_group_of, unmap_lun_of, save_to_file_of, open_tpg_of,
  lookup_tpg_of, node_acl_of, map_lun_of, delete_mapping_of, delete_acl_of, delete_tpg_of,
  delete_target_of, set_userid_of, set_password_of, set_mutual_userid_of, set_mutual_password_of,
)
