-- ===== src/Block/Methods.antt =====
-- The dict of methods that `initialize` of targetd/block.py returns.
pub mod Volumes
pub mod Groups
use targetd.Prelude.{codes, [], ◌∷◌}
use targetd.Prelude.Dict.{Dict}
use targetd.Block.Parts.{Parts}
use targetd.Main.Methods.{Method}
use targetd.Block.Methods.Volumes.{
  vol_list, vol_create, vol_destroy, vol_copy, vol_resize, export_list_method, export_create_method,
  export_destroy_method, initiator_set_auth_method,
}
use targetd.Block.Methods.Groups.{
  initiator_list_method, access_group_list_method, access_group_create_method,
  access_group_destroy_method, access_group_init_add_method, access_group_init_del_method,
  access_group_map_list_method, access_group_map_create_method, access_group_map_destroy_method,
}

abbrev pub mapping : {K W Storage Lun : Type 0} → Parts W Storage Lun → Dict (Method K W)
mapping p =
    (codes "vol_list", vol_list p)
    ∷ (codes "vol_create", vol_create p)
    ∷ (codes "vol_destroy", vol_destroy p)
    ∷ (codes "vol_copy", vol_copy p)
    ∷ (codes "vol_resize", vol_resize p)
    ∷ (codes "export_list", export_list_method p)
    ∷ (codes "export_create", export_create_method p)
    ∷ (codes "export_destroy", export_destroy_method p)
    ∷ (codes "initiator_set_auth", initiator_set_auth_method p)
    ∷ (codes "initiator_list", initiator_list_method p)
    ∷ (codes "access_group_list", access_group_list_method p)
    ∷ (codes "access_group_create", access_group_create_method p)
    ∷ (codes "access_group_destroy", access_group_destroy_method p)
    ∷ (codes "access_group_init_add", access_group_init_add_method p)
    ∷ (codes "access_group_init_del", access_group_init_del_method p)
    ∷ (codes "access_group_map_list", access_group_map_list_method p)
    ∷ (codes "access_group_map_create", access_group_map_create_method p)
    ∷ (codes "access_group_map_destroy", access_group_map_destroy_method p)
    ∷ []
