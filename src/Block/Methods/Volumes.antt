-- ===== src/Block/Methods/Volumes.antt =====
-- The functions on volumes and exports of targetd/block.py with their parameters.
use targetd.Prelude.{codes, [], ◌∷◌}
use targetd.Block.Volumes.{volumes, create, destroy, copy, resize}
use targetd.Block.Exports.{export_list, export_create, export_destroy, initiator_set_auth}
use targetd.Block.Parts.{Parts}
use targetd.Main.Methods.{
  volume_list, export_list_of, Method, answers, done, text_arg, nat_arg, text_or_none, nat_or_none,
  ◌>>=?◌,
}

module _ {K W Storage Lun : Type 0} (p : Parts W Storage Lun) where
  abbrev pub vol_list : Method K W
  vol_list = record {
    required = codes "pool" ∷ [];
    optional = [];
    body = λ d.
        text_arg d (codes "pool") >>=? λ pool. answers volume_list (volumes p.pool_modules pool);
  }

  abbrev pub vol_create : Method K W
  vol_create = record {
    required = codes "pool" ∷ codes "name" ∷ codes "size" ∷ [];
    optional = [];
    body = λ d. text_arg d (codes "pool") >>=? λ pool. text_arg d (codes "name") >>=? λ name.
        nat_arg d (codes "size") >>=? λ size. done (create p.pool_modules pool name size);
  }

  abbrev pub vol_destroy : Method K W
  vol_destroy = record {
    required = codes "pool" ∷ codes "name" ∷ [];
    optional = [];
    body = λ d. text_arg d (codes "pool") >>=? λ pool.
        text_arg d (codes "name") >>=? λ name. done (destroy p.pool_modules p.luns pool name);
  }

  abbrev pub vol_copy : Method K W
  vol_copy = record {
    required = codes "pool" ∷ codes "vol_orig" ∷ codes "vol_new" ∷ [];
    optional = codes "size" ∷ codes "timeout" ∷ [];
    body = λ d. text_arg d (codes "pool") >>=? λ pool.
        text_arg d (codes "vol_orig") >>=? λ vol_orig. text_arg d (codes "vol_new") >>=? λ vol_new.
        nat_or_none d (codes "size") >>=? λ size.
        done (copy p.pool_modules pool vol_orig vol_new size);
  }

  abbrev pub vol_resize : Method K W
  vol_resize = record {
    required = codes "pool" ∷ codes "name" ∷ codes "size" ∷ [];
    optional = [];
    body = λ d. text_arg d (codes "pool") >>=? λ pool. text_arg d (codes "name") >>=? λ name.
        nat_arg d (codes "size") >>=? λ size. done (resize p.pool_modules pool name size);
  }

  abbrev pub export_list_method : Method K W
  export_list_method = record {
    required = [];
    optional = [];
    body = λ _. answers export_list_of (export_list p.rtslib p.node_acls p.pool_modules);
  }

  abbrev pub export_create_method : Method K W
  export_create_method = record {
    required = codes "pool" ∷ codes "vol" ∷ codes "initiator_wwn" ∷ codes "lun" ∷ [];
    optional = [];
    body = λ d. text_arg d (codes "pool") >>=? λ pool. text_arg d (codes "vol") >>=? λ vol.
        text_arg d (codes "initiator_wwn") >>=? λ initiator_wwn. nat_arg d (codes "lun") >>=? λ lun.
        done (export_create p.rtslib p.node_acls p.pool_modules pool vol initiator_wwn lun);
  }

  abbrev pub export_destroy_method : Method K W
  export_destroy_method = record {
    required = codes "pool" ∷ codes "vol" ∷ codes "initiator_wwn" ∷ [];
    optional = [];
    body = λ d. text_arg d (codes "pool") >>=? λ pool. text_arg d (codes "vol") >>=? λ vol.
        text_arg d (codes "initiator_wwn") >>=? λ initiator_wwn.
        done (export_destroy p.rtslib p.node_acls p.pool_modules pool vol initiator_wwn);
  }

  abbrev pub initiator_set_auth_method : Method K W
  initiator_set_auth_method = record {
    required =
        codes "initiator_wwn"
        ∷ codes "in_user"
        ∷ codes "in_pass"
        ∷ codes "out_user"
        ∷ codes "out_pass"
        ∷ [];
    optional = [];
    body = λ d. text_arg d (codes "initiator_wwn") >>=? λ initiator_wwn.
        text_or_none d (codes "in_user") >>=? λ in_user.
        text_or_none d (codes "in_pass") >>=? λ in_pass.
        text_or_none d (codes "out_user") >>=? λ out_user.
        text_or_none d (codes "out_pass") >>=? λ out_pass. done (
          initiator_set_auth p.rtslib p.node_acls p.pool_modules initiator_wwn in_user in_pass
            out_user out_pass);
  }
