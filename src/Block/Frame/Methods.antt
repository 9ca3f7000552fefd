-- ===== src/Block/Frame/Methods.antt =====
-- The functions in the dict of targetd/block.py put no initiator into a second access group.
use targetd.Prelude.{Bool, Text, List, []}
use targetd.Utils.Keeps.{keeps_rules}
use targetd.Block.AccessGroups.{
  Group, initiator_list, access_group_list, access_group_create, access_group_destroy,
  access_group_init_add, access_group_init_del,
}
use targetd.Block.AccessGroups.Laws.{Groups, IsPartition, access_groups-IsPartition}
use targetd.Block.Parts.{Parts}
use targetd.Block.Methods.{mapping}
use targetd.Block.Frame.{KeepsGroups, RtslibShrinks}
use targetd.Block.Frame.Calls.{rtslib_rules}
use targetd.Block.Frame.Modules.{AllModules}
use targetd.Block.Frame.Volumes.{
  volumes-Keeps, create-Keeps, destroy-Keeps, copy-Keeps, resize-Keeps,
}
use targetd.Block.Frame.Exports.{
  export_list-Keeps, export_create-Keeps, export_destroy-Keeps, initiator_set_auth-Keeps,
}
use targetd.Block.Frame.Mappings.{
  access_group_map_list-Keeps, access_group_map_create-Keeps, access_group_map_destroy-Keeps,
}
use targetd.Main.Methods.Laws.{AllKeep, act_rules}

module _ {W Storage Lun : Type 0} (p : Parts W Storage Lun)
    (laws : RtslibShrinks p p.target.node_acl_groups)
    (all : AllModules p.target.node_acl_groups p.pool_modules) (rules : Groups p.target) where
  abbrev groups : W → List Group
  groups = p.target.node_acl_groups

  initiator_list-Keeps : (only : Bool) → KeepsGroups groups (initiator_list p.target only)
  unfolding initiator_list
  initiator_list-Keeps only = search (keeps_rules, rtslib_rules)

  access_group_list-Keeps : KeepsGroups groups (access_group_list p.target)
  unfolding access_group_list
  access_group_list-Keeps = search (keeps_rules, rtslib_rules)

  module _ (ag_name init_id init_type : Text) where
    access_group_create-Keeps :
        KeepsGroups groups (access_group_create p.target ag_name init_id init_type)
    access_group_create-Keeps = record {
      keeps = λ w h. (access_groups-IsPartition p.target rules ag_name init_id init_type w h).0;
    }

    access_group_init_add-Keeps :
        KeepsGroups groups (access_group_init_add p.target ag_name init_id init_type)
    access_group_init_add-Keeps = record {
      keeps = λ w h. (access_groups-IsPartition p.target rules ag_name init_id init_type w h).1;
    }

    access_group_init_del-Keeps :
        KeepsGroups groups (access_group_init_del p.target ag_name init_id init_type)
    access_group_init_del-Keeps = record {
      keeps = λ w h. (access_groups-IsPartition p.target rules ag_name init_id init_type w h).2;
    }

  access_group_destroy-Keeps :
      (ag_name : Text) → KeepsGroups groups (access_group_destroy p.target ag_name)
  access_group_destroy-Keeps ag_name = record {
    keeps = λ w h. (access_groups-IsPartition p.target rules ag_name [] [] w h).3;
  }

  pub mapping-AllKeep : (K : Type 0) → AllKeep (λ w. IsPartition (groups w)) (mapping {K = K} p)
  mapping-AllKeep K = (
    (λ d. search (act_rules, volumes-Keeps groups p.pool_modules all) depth 12),
    (
      (λ d. search (act_rules, create-Keeps groups p.pool_modules all) depth 12),
      (
        (λ d. search (act_rules, destroy-Keeps groups p.pool_modules all p.luns) depth 12),
        (
          (λ d. search (act_rules, copy-Keeps groups p.pool_modules all) depth 12),
          (
            (λ d. search (act_rules, resize-Keeps groups p.pool_modules all) depth 12),
            (
              (λ d. search (act_rules, export_list-Keeps p groups laws all) depth 12),
              (
                (λ d. search (act_rules, export_create-Keeps p groups laws all) depth 12),
                (
                  (λ d. search (act_rules, export_destroy-Keeps p groups laws all) depth 12),
                  (
                    (λ d. search (act_rules, initiator_set_auth-Keeps p groups laws all) depth 12),
                    (
                      (λ d. search (act_rules, initiator_list-Keeps) depth 12),
                      (
                        (λ d. search (act_rules, access_group_list-Keeps) depth 12),
                        (
                          (λ d. search (act_rules, access_group_create-Keeps) depth 12),
                          (
                            (λ d. search (act_rules, access_group_destroy-Keeps) depth 12),
                            (
                              (λ d. search (act_rules, access_group_init_add-Keeps) depth 12),
                              (
                                (λ d. search (act_rules, access_group_init_del-Keeps) depth 12),
                                (
                                  (λ d.
                                      search
                                        (act_rules, access_group_map_list-Keeps p groups laws all)
                                        depth 12),
                                  (
                                    (λ d.
                                        search
                                          (
                                            act_rules,
                                            access_group_map_create-Keeps p groups laws all,
                                          )
                                          depth 12),
                                    (
                                      (λ d.
                                          search
                                            (
                                              act_rules,
                                              access_group_map_destroy-Keeps p groups laws all,
                                            )
                                            depth 12),
                                      tt,
                                    ),
                                  ),
                                ),
                              ),
                            ),
                          ),
                        ),
                      ),
                    ),
                  ),
                ),
              ),
            ),
          ),
        ),
      ),
    ),
  )
