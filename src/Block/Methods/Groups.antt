-- ===== src/Block/Methods/Groups.antt =====
-- The functions on initiators and access groups of targetd/block.py with their parameters.
use targetd.Prelude.{codes, [], ◌∷◌}
use targetd.Block.AccessGroups.{
  initiator_list, access_group_list, access_group_create, access_group_destroy,
  access_group_init_add, access_group_init_del,
}
use targetd.Block.Mappings.{
  access_group_map_list, access_group_map_create, access_group_map_destroy,
}
use targetd.Block.Parts.{Parts}
use targetd.Main.Methods.{
  initiators, group_list, mapping_list, Method, answers, done, text_arg, nat_or_none, truth_arg,
  ◌>>=?◌,
}

module _ {K W Storage Lun : Type 0} (p : Parts W Storage Lun) where
  abbrev pub initiator_list_method : Method K W
  initiator_list_method = record {
    required = [];
    optional = codes "standalone_only" ∷ [];
    body = λ d. truth_arg d (codes "standalone_only") >>=? λ standalone_only.
        answers initiators (initiator_list p.target standalone_only);
  }

  abbrev pub access_group_list_method : Method K W
  access_group_list_method = record {
    required = [];
    optional = [];
    body = λ _. answers group_list (access_group_list p.target);
  }

  abbrev pub access_group_create_method : Method K W
  access_group_create_method = record {
    required = codes "ag_name" ∷ codes "init_id" ∷ codes "init_type" ∷ [];
    optional = [];
    body = λ d. text_arg d (codes "ag_name") >>=? λ ag_name.
        text_arg d (codes "init_id") >>=? λ init_id.
        text_arg d (codes "init_type") >>=? λ init_type.
        done (access_group_create p.target ag_name init_id init_type);
  }

  abbrev pub access_group_destroy_method : Method K W
  access_group_destroy_method = record {
    required = codes "ag_name" ∷ [];
    optional = [];
    body = λ d.
        text_arg d (codes "ag_name") >>=? λ ag_name. done (access_group_destroy p.target ag_name);
  }

  abbrev pub access_group_init_add_method : Method K W
  access_group_init_add_method = record {
    required = codes "ag_name" ∷ codes "init_id" ∷ codes "init_type" ∷ [];
    optional = [];
    body = λ d. text_arg d (codes "ag_name") >>=? λ ag_name.
        text_arg d (codes "init_id") >>=? λ init_id.
        text_arg d (codes "init_type") >>=? λ init_type.
        done (access_group_init_add p.target ag_name init_id init_type);
  }

  abbrev pub access_group_init_del_method : Method K W
  access_group_init_del_method = record {
    required = codes "ag_name" ∷ codes "init_id" ∷ codes "init_type" ∷ [];
    optional = [];
    body = λ d. text_arg d (codes "ag_name") >>=? λ ag_name.
        text_arg d (codes "init_id") >>=? λ init_id.
        text_arg d (codes "init_type") >>=? λ init_type.
        done (access_group_init_del p.target ag_name init_id init_type);
  }

  abbrev pub access_group_map_list_method : Method K W
  access_group_map_list_method = record {
    required = [];
    optional = [];
    body = λ _. answers mapping_list (access_group_map_list p.rtslib p.pool_modules);
  }

  abbrev pub access_group_map_create_method : Method K W
  access_group_map_create_method = record {
    required = codes "pool_name" ∷ codes "vol_name" ∷ codes "ag_name" ∷ [];
    optional = codes "h_lun_id" ∷ [];
    body = λ d. text_arg d (codes "pool_name") >>=? λ pool_name.
        text_arg d (codes "vol_name") >>=? λ vol_name. text_arg d (codes "ag_name") >>=? λ ag_name.
        nat_or_none d (codes "h_lun_id") >>=? λ h_lun_id. done (
          access_group_map_create p.rtslib p.pool_modules p.pop p.max_lun pool_name vol_name ag_name
            h_lun_id);
  }

  abbrev pub access_group_map_destroy_method : Method K W
  access_group_map_destroy_method = record {
    required = codes "pool_name" ∷ codes "vol_name" ∷ codes "ag_name" ∷ [];
    optional = [];
    body = λ d. text_arg d (codes "pool_name") >>=? λ pool_name.
        text_arg d (codes "vol_name") >>=? λ vol_name. text_arg d (codes "ag_name") >>=? λ ag_name.
        done (access_group_map_destroy p.rtslib p.pool_modules pool_name vol_name ag_name);
  }
