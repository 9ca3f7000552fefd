-- ===== src/Block/AccessGroups.antt =====
-- The initiators and the access groups of targetd/block.py. The target in configfs, as rtslib shows
-- it, is a parameter.
pub mod Laws
use targetd.Prelude.{
  ℕ, Bool, true, false, not, ◌&&◌, Text, text_eq, codes, member, map, any, Option, none, some, List,
  [], ◌∷◌, if◌then◌else◌,
}
use targetd.Utils.Errors.{targetd_error, no_support, name_conflict, exists_initiator}
use targetd.Utils.Exec.{Exec, pure, lift, gets, ◌>>=◌, ◌>>◌, raise_if, skip}
use targetd.Utils.Names.{name_check}

-- `NodeACLGroup`
pub record Group : Type 0 where
  pub name : Text
  pub wwns : List Text

-- `NodeACL`
pub record NodeAcl : Type 0 where
  pub node_wwn : Text
  pub tag : Option Text

pub record Target (W : Type 0) : Type 0 where
  -- `_get_iscsi_tpg`, which makes the target and its portal group if they are not there
  pub get_iscsi_tpg : Exec W (Unit {0})
  pub node_acl_groups : W → List Group
  pub node_acls : W → List NodeAcl
  -- `list(NodeACLGroup(tpg, ag_name).wwns)`
  pub wwns_of : Text → W → List Text
  pub add_acl : Text → Text → Exec W (Unit {0})
  pub remove_acl : Text → Text → Exec W (Unit {0})
  pub delete_group : Text → Exec W (Unit {0})
  -- `RTSRoot().save_to_file()`
  pub save_to_file : Exec W (Unit {0})

-- `init_type != "iscsi"`
abbrev pub is_iscsi : Text → Bool
is_iscsi init_type = text_eq init_type (codes "iscsi")

-- The condition of `initiator_list`.
abbrev pub condition : Bool → NodeAcl → Bool
condition standalone_only node_acl = elim node_acl.tag [
  | none ↦ true
  | some _ ↦ not standalone_only
]

-- The comprehension of `initiator_list`.
unfoldable pub init_ids : Bool → List NodeAcl → List Text
init_ids standalone_only [] = []
init_ids standalone_only (na ∷ acls) =
    let rest = init_ids standalone_only acls in
    if condition standalone_only na then na.node_wwn ∷ rest else rest

-- `init_id in list(i.node_wwn for i in tpg.node_acls)`
abbrev pub has_acl : Text → List NodeAcl → Bool
has_acl init_id = any (λ i. text_eq init_id i.node_wwn)

-- The loop over the groups of `access_group_init_add`.
abbrev pub in_some_group : Text → List Group → Bool
in_some_group init_id = any (λ g. member init_id g.wwns)

abbrev pub name_in_use : Text → List Group → Bool
name_in_use ag_name = any (λ g. text_eq g.name ag_name)

module _ {W : Type 0} (t : Target W) where
  unfoldable pub initiator_list : Bool → Exec W (List Text)
  initiator_list standalone_only = do
    t.get_iscsi_tpg
    acls ← gets t.node_acls
    pure (init_ids standalone_only acls)

  unfoldable pub access_group_list : Exec W (List Group)
  access_group_list = do t.get_iscsi_tpg; gets t.node_acl_groups

  unfoldable pub access_group_create : Text → Text → Text → Exec W (Unit {0})
  access_group_create ag_name init_id init_type = do
    raise_if (not (is_iscsi init_type)) (targetd_error no_support)
    lift (name_check ag_name)
    t.get_iscsi_tpg
    groups ← gets t.node_acl_groups
    raise_if (name_in_use ag_name groups) (targetd_error name_conflict)
    acls ← gets t.node_acls
    raise_if (has_acl init_id acls) (targetd_error exists_initiator)
    t.add_acl ag_name init_id
    t.save_to_file

  unfoldable pub access_group_destroy : Text → Exec W (Unit {0})
  access_group_destroy ag_name = do t.get_iscsi_tpg; t.delete_group ag_name; t.save_to_file

  -- The part of `access_group_init_add` behind the silent return.
  unfoldable pub add_new : Text → Text → Exec W (Unit {0})
  add_new ag_name init_id = do
    groups ← gets t.node_acl_groups
    raise_if (in_some_group init_id groups) (targetd_error exists_initiator)
    acls ← gets t.node_acls
    raise_if (has_acl init_id acls) (targetd_error exists_initiator)
    t.add_acl ag_name init_id
    t.save_to_file

  unfoldable pub access_group_init_add : Text → Text → Text → Exec W (Unit {0})
  unfolding add_new
  access_group_init_add ag_name init_id init_type = do
    raise_if (not (is_iscsi init_type)) (targetd_error no_support)
    t.get_iscsi_tpg
    wwns ← gets (t.wwns_of ag_name)
    if member init_id wwns then skip else add_new ag_name init_id

  unfoldable pub access_group_init_del : Text → Text → Text → Exec W (Unit {0})
  access_group_init_del ag_name init_id init_type = do
    raise_if (not (is_iscsi init_type)) (targetd_error no_support)
    t.get_iscsi_tpg
    wwns ← gets (t.wwns_of ag_name)
    if not (member init_id wwns) then skip else (t.remove_acl ag_name init_id >> t.save_to_file)
