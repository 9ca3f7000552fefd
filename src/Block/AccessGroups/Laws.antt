-- ===== src/Block/AccessGroups/Laws.antt =====
-- No operation of targetd/block.py puts an initiator into a second access group.
use targetd.Prelude.{
  ℕ, ◌+◌, ◌≤◌, ◌≡◌, refl, false, Text, text_eq, text_eq_iff, member, List, [], ◌∷◌, if◌then◌else◌,
  arith,
}
use targetd.Block.AccessGroups.{
  Group, Target, has_acl, in_some_group, access_group_create, access_group_destroy, add_new,
  access_group_init_add, access_group_init_del,
}

-- In how many groups an initiator is.
abbrev pub count : Text → List Group → ℕ
count init_id [] = 0
count init_id (g ∷ groups) =
    if member init_id g.wwns then 1 + count init_id groups else count init_id groups

-- Every initiator is in at most one group.
abbrev pub IsPartition : List Group → Type 0
IsPartition groups = (init_id : Text) → count init_id groups ≤ 1

count_none :
    (init_id : Text) (groups : List Group)
    → in_some_group init_id groups ≡ false
    → count init_id groups ≡ 0
count_none init_id [] h = refl
count_none init_id (g ∷ groups) h = ground (arith, count_none init_id groups)

-- What rtslib does: an added initiator is in one group more, a removed one and those of a deleted
-- group in no more than before, and every member of a group has an ACL.
pub record Groups {W : Type 0} (t : Target W) : Type 0 where
  pub of_tpg : (w : W) → t.node_acl_groups (t.get_iscsi_tpg w).1 ≡ t.node_acl_groups w
  pub of_save : (w : W) → t.node_acl_groups (t.save_to_file w).1 ≡ t.node_acl_groups w
  pub of_add :
      (ag_name init_id other : Text) (w : W)
      → count other (t.node_acl_groups (t.add_acl ag_name init_id w).1)
        ≤ count other (t.node_acl_groups w) + (if text_eq init_id other then 1 else 0)
  pub of_remove :
      (ag_name init_id other : Text) (w : W)
      → count other (t.node_acl_groups (t.remove_acl ag_name init_id w).1)
        ≤ count other (t.node_acl_groups w)
  pub of_delete :
      (ag_name other : Text) (w : W)
      → count other (t.node_acl_groups (t.delete_group ag_name w).1)
        ≤ count other (t.node_acl_groups w)
  pub have_acls :
      (init_id : Text) (w : W)
      → has_acl init_id (t.node_acls w) ≡ false
      → in_some_group init_id (t.node_acl_groups w) ≡ false

module _ {W : Type 0} (t : Target W) (laws : Groups t) where
  add_and_save :
      (ag_name init_id other : Text) (w : W)
      → in_some_group init_id (t.node_acl_groups w) ≡ false
      → count other (t.node_acl_groups w) ≤ 1
      → count other (t.node_acl_groups (t.add_acl ag_name init_id w).1) ≤ 1
  add_and_save ag_name init_id other w out h = ground (
    arith,
    laws.of_add ag_name init_id other w,
    text_eq_iff init_id other,
    count_none init_id (t.node_acl_groups w) out,
  )

  create_partition :
      (ag_name init_id init_type other : Text) (w : W)
      → count other (t.node_acl_groups w) ≤ 1
      → count other (t.node_acl_groups (access_group_create t ag_name init_id init_type w).1) ≤ 1
  unfolding access_group_create
  create_partition ag_name init_id init_type other w h =
      let w1 = (t.get_iscsi_tpg w).1 in
      ground (
        arith,
        laws.of_tpg w,
        laws.have_acls init_id w1,
        laws.of_save (t.add_acl ag_name init_id w1).1,
        add_and_save ag_name init_id other w1,
      )

  add_new_partition :
      (ag_name init_id other : Text) (w : W)
      → count other (t.node_acl_groups w) ≤ 1
      → count other (t.node_acl_groups (add_new t ag_name init_id w).1) ≤ 1
  unfolding add_new
  add_new_partition ag_name init_id other w h =
      ground
        (arith, laws.of_save (t.add_acl ag_name init_id w).1, add_and_save ag_name init_id other w)

  add_partition :
      (ag_name init_id init_type other : Text) (w : W)
      → count other (t.node_acl_groups w) ≤ 1
      → count other (t.node_acl_groups (access_group_init_add t ag_name init_id init_type w).1) ≤ 1
  unfolding access_group_init_add
  add_partition ag_name init_id init_type other w h =
      ground (arith, laws.of_tpg w, add_new_partition ag_name init_id other (t.get_iscsi_tpg w).1)

  del_partition :
      (ag_name init_id init_type other : Text) (w : W)
      → count other (t.node_acl_groups w) ≤ 1
      → count other (t.node_acl_groups (access_group_init_del t ag_name init_id init_type w).1) ≤ 1
  unfolding access_group_init_del
  del_partition ag_name init_id init_type other w h =
      let w1 = (t.get_iscsi_tpg w).1 in
      ground (
        arith,
        laws.of_tpg w,
        laws.of_remove ag_name init_id other w1,
        laws.of_save (t.remove_acl ag_name init_id w1).1,
      )

  destroy_partition :
      (ag_name other : Text) (w : W)
      → count other (t.node_acl_groups w) ≤ 1
      → count other (t.node_acl_groups (access_group_destroy t ag_name w).1) ≤ 1
  unfolding access_group_destroy
  destroy_partition ag_name other w h =
      let w1 = (t.get_iscsi_tpg w).1 in
      ground (
        arith,
        laws.of_tpg w,
        laws.of_delete ag_name other w1,
        laws.of_save (t.delete_group ag_name w1).1,
      )

  -- Over an rtslib that obeys the laws of `Groups`: if every initiator is in at most one access
  -- group, it still is after any of the four operations
  -- that change the groups, whether the operation ends well or raises.
  pub access_groups-IsPartition :
      (ag_name init_id init_type : Text) (w : W)
      → IsPartition (t.node_acl_groups w)
      → IsPartition (t.node_acl_groups (access_group_create t ag_name init_id init_type w).1)
        × IsPartition (t.node_acl_groups (access_group_init_add t ag_name init_id init_type w).1)
        × IsPartition (t.node_acl_groups (access_group_init_del t ag_name init_id init_type w).1)
        × IsPartition (t.node_acl_groups (access_group_destroy t ag_name w).1)
  access_groups-IsPartition ag_name init_id init_type w h = (
    (λ other. create_partition ag_name init_id init_type other w (h other)),
    (λ other. add_partition ag_name init_id init_type other w (h other)),
    (λ other. del_partition ag_name init_id init_type other w (h other)),
    λ other. destroy_partition ag_name other w (h other),
  )
