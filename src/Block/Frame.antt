-- ===== src/Block/Frame.antt =====
-- What rtslib and the modules of the pools do to the access groups, when targetd/block.py calls them
-- for anything else.
pub mod Modules
pub mod Part
pub mod Calls
pub mod Volumes
pub mod Mappings
pub mod Exports
pub mod Methods
use targetd.Prelude.{ℕ, ◌≤◌, Text, Option, List, arith}
use targetd.Utils.Exec.{Exec}
use targetd.Utils.Keeps.{Keeps}
use targetd.Backends.Interface.{BlockBackend}
use targetd.Block.AccessGroups.{Group}
use targetd.Block.AccessGroups.Laws.{count, IsPartition}
use targetd.Block.Parts.{Parts}

-- Behind the code, whether it ends well or raises, no initiator is in more groups than before.
pub record Shrinks {W A : Type 0} (groups : W → List Group) (m : Exec W A) : Type 0 where
  pub shrinks : (a : Text) (w : W) → count a (groups (m w).1) ≤ count a (groups w)

-- Behind the code no initiator is in two groups, if none was before.
abbrev pub KeepsGroups : {W A : Type 0} → (W → List Group) → Exec W A → Type 0
KeepsGroups groups m = Keeps (λ w. IsPartition (groups w)) m

pub of_shrinks :
    {W A : Type 0} {groups : W → List Group} {m : Exec W A}
    → Shrinks groups m
    → KeepsGroups groups m
of_shrinks {groups} {m} x = record { keeps = λ w h a. omega (arith, x.shrinks a w, h a) }

module _ {W : Type 0} (groups : W → List Group) where
  pub record ModuleShrinks (b : BlockBackend W) : Type 0 where
    pub volumes : (pool : Text) → Shrinks groups (b.volumes pool)
    pub create : (pool name : Text) (size : ℕ) → Shrinks groups (b.create pool name size)
    pub destroy : (pool name : Text) → Shrinks groups (b.destroy pool name)
    pub copy :
        (pool vol_orig vol_new : Text) (size : Option ℕ)
        → Shrinks groups (b.copy pool vol_orig vol_new size)
    pub resize : (pool name : Text) (size : ℕ) → Shrinks groups (b.resize pool name size)
    pub vol_info : (pool name : Text) → Shrinks groups (b.vol_info pool name)
    pub block_pools : Shrinks groups b.block_pools

-- Only the functions on access groups add an initiator to one.
pub record RtslibShrinks {W Storage Lun : Type 0} (p : Parts W Storage Lun)
    (groups : W → List Group) : Type 0 where
  pub get_tpg : Shrinks groups p.target.get_iscsi_tpg
  pub get_iscsi_tpg : Shrinks groups p.rtslib.get_iscsi_tpg
  pub enable : Shrinks groups p.rtslib.enable
  pub create_so : (name dev : Text) → Shrinks groups (p.rtslib.create_so name dev)
  pub set_wwn : (so : Storage) (wwn : Text) → Shrinks groups (p.rtslib.set_wwn so wwn)
  pub emulate : (so : Storage) → Shrinks groups (p.rtslib.emulate_model_alias so)
  pub delete_so : (so : Storage) → Shrinks groups (p.rtslib.delete_so so)
  pub new_lun : (so : Storage) → Shrinks groups (p.rtslib.new_lun so)
  pub delete_lun : (l : Lun) → Shrinks groups (p.rtslib.delete_lun l)
  pub map_for_group :
      (ag_name : Text) (n : ℕ) (l : Lun) → Shrinks groups (p.rtslib.map_lun ag_name n l)
  pub unmap_lun : (ag_name : Text) (n : ℕ) → Shrinks groups (p.rtslib.unmap_lun ag_name n)
  pub save_to_file : Shrinks groups p.rtslib.save_to_file
  pub open_tpg : Shrinks groups p.node_acls.open_tpg
  pub lookup_tpg : Shrinks groups p.node_acls.lookup_tpg
  pub node_acl : (wwn : Text) → Shrinks groups (p.node_acls.node_acl wwn)
  pub map_lun : (wwn : Text) (n : ℕ) (l : Lun) → Shrinks groups (p.node_acls.map_lun wwn n l)
  pub delete_mapping : (wwn : Text) (n : ℕ) → Shrinks groups (p.node_acls.delete_mapping wwn n)
  pub delete_acl : (wwn : Text) → Shrinks groups (p.node_acls.delete_acl wwn)
  pub delete_tpg : Shrinks groups p.node_acls.delete_tpg
  pub delete_target : Shrinks groups p.node_acls.delete_target
  pub set_userid : (wwn s : Text) → Shrinks groups (p.node_acls.set_chap_userid wwn s)
  pub set_password : (wwn s : Text) → Shrinks groups (p.node_acls.set_chap_password wwn s)
  pub set_mutual_userid : (wwn s : Text) → Shrinks groups (p.node_acls.set_chap_mutual_userid wwn s)
  pub set_mutual_password :
      (wwn s : Text) → Shrinks groups (p.node_acls.set_chap_mutual_password wwn s)
