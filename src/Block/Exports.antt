-- ===== src/Block/Exports.antt =====
-- The exports of volumes to initiators of targetd/block.py. rtslib is a parameter: `Rtslib` for
-- LUNs and storage objects, and the node ACLs of the target with their mapped LUNs.
pub mod Mapped
pub mod Search
pub mod Tidied
pub mod Creation
pub mod Laws
use targetd.Prelude.{
  ℕ, Bool, true, false, not, ◌&&◌, ◌==◌, Text, text_eq, any, Option, none, some, List, [], ◌∷◌,
  ◌++◌, if◌then◌else◌,
}
use targetd.Utils.Errors.{Result, ok, err, targetd_error, not_found_volume_export, attribute_error}
use targetd.Utils.Exec.{Exec, pure, raise, lift, gets, ◌>>=◌, ◌>>◌, skip}
use targetd.Backends.Interface.{BlockBackend, VolInfo}
use targetd.Block.Volumes.{pool_module, udev_path_module}
use targetd.Block.Mappings.{Rtslib, is_empty, tpg_lun_of, tidy}

-- A node ACL is named by the WWN of its initiator, a mapped LUN by its ACL and its number.
pub record NodeAcls (W Storage Lun : Type 0) : Type 0 where
  -- `TPG(Target(FabricModule("iscsi"), target_name), 1)`, which makes what is missing
  pub open_tpg : Exec W (Unit {0})
  -- The same with `mode="lookup"`, false for its `RTSLibNotInCFS`
  pub lookup_tpg : Exec W Bool
  -- `NodeACL(tpg, initiator_wwn)`, which makes it if it is missing
  pub node_acl : Text → Exec W (Unit {0})
  pub node_acls : W → List Text
  -- `na.mapped_luns`, and `tpg_lun.mapped_luns` with their node ACLs
  pub mapped_of : Text → W → List (ℕ × Lun)
  pub parents_of : Lun → W → List (ℕ × Text)
  pub udev_path : Storage → Text
  pub map_lun : Text → ℕ → Lun → Exec W (Unit {0})
  pub delete_mapping : Text → ℕ → Exec W (Unit {0})
  pub delete_acl : Text → Exec W (Unit {0})
  pub delete_tpg : Exec W (Unit {0})
  pub has_tpgs : W → Bool
  pub delete_target : Exec W (Unit {0})
  pub set_chap_userid : Text → Text → Exec W (Unit {0})
  pub set_chap_password : Text → Text → Exec W (Unit {0})
  pub set_chap_mutual_userid : Text → Text → Exec W (Unit {0})
  pub set_chap_mutual_password : Text → Text → Exec W (Unit {0})

-- An entry of the list of `export_list`.
pub record Export : Type 0 where
  pub initiator_wwn : Text
  pub lun : ℕ
  pub vol_name : Text
  pub pool : Text
  pub vol_uuid : Text
  pub vol_size : ℕ

-- `if not user or not password: user = password = ""`
unfoldable pub credentials : Option Text → Option Text → Text × Text
credentials none _ = ([], [])
credentials (some []) _ = ([], [])
credentials (some (_ ∷ _)) none = ([], [])
credentials (some (_ ∷ _)) (some []) = ([], [])
credentials (some (c ∷ user)) (some (d ∷ password)) = (c ∷ user, d ∷ password)

-- A volume without information has no attribute `uuid`.
abbrev pub attributes : Option VolInfo → Result VolInfo
attributes none = err attribute_error
attributes (some vinfo) = ok vinfo

module _ {W Storage Lun : Type 0} (r : Rtslib W Storage Lun) (t : NodeAcls W Storage Lun)
    (pool_modules : List (BlockBackend W)) where
  abbrev pub path_of : Lun → Text
  path_of tpg_lun = t.udev_path (r.storage_object tpg_lun)

  -- The entry of a mapped LUN.
  unfoldable pub export_of : Text → ℕ → Lun → Exec W Export
  export_of wwn n tpg_lun = do
    mod' ← lift (udev_path_module pool_modules (path_of tpg_lun))
    (mlun_pool, mlun_name) ← lift (mod'.split_udev_path (path_of tpg_lun))
    pool ← lift (mod'.dev2pool_name mlun_pool)
    info ← mod'.vol_info pool mlun_name
    vinfo ← lift (attributes info)
    pure (record {
      initiator_wwn = wwn;
      lun = n;
      vol_name = mlun_name;
      pool = pool;
      vol_uuid = vinfo.uuid;
      vol_size = vinfo.size;
    })

  -- The loops of `export_list`: over the mapped LUNs of a node ACL, and over the node ACLs.
  unfoldable pub exports_of : Text → List (ℕ × Lun) → Exec W (List Export)
  unfolding export_of
  exports_of wwn [] = pure []
  exports_of wwn ((n, tpg_lun) ∷ mapped) = do
    e ← export_of wwn n tpg_lun
    rest ← exports_of wwn mapped
    pure (e ∷ rest)

  unfoldable pub all_exports : List Text → Exec W (List Export)
  unfolding exports_of
  all_exports [] = pure []
  all_exports (wwn ∷ wwns) = do
    mapped ← gets (t.mapped_of wwn)
    these ← exports_of wwn mapped
    rest ← all_exports wwns
    pure (these ++ rest)

  unfoldable pub export_list : Exec W (List Export)
  unfolding all_exports
  export_list = do
    there ← t.lookup_tpg
    wwns ← gets t.node_acls
    if there then all_exports wwns else pure []

  -- `for tmp_mlun in tpg_lun.mapped_luns: …`
  abbrev pub is_mapped : Text → ℕ → List (ℕ × Text) → Bool
  is_mapped wwn n = any (λ m. m.0 == n && text_eq m.1 wwn)

  unfoldable pub export_create : Text → Text → Text → ℕ → Exec W (Unit {0})
  export_create pool vol wwn n = do
    t.open_tpg
    r.enable
    t.node_acl wwn
    tpg_lun ← tpg_lun_of r pool_modules pool vol
    mapped ← gets (t.parents_of tpg_lun)
    if is_mapped wwn n mapped then skip else t.map_lun wwn n tpg_lun
    r.save_to_file

  -- The search of `export_destroy`.
  unfoldable pub find_export :
      BlockBackend W → Text → Text → List (ℕ × Lun) → Result (Option (ℕ × Lun))
  find_export mod' pool_dev_name vol [] = ok none
  find_export mod' pool_dev_name vol ((n, tpg_lun) ∷ mapped) =
      let rest = find_export mod' pool_dev_name vol mapped in
      let split : Result (Option (ℕ × Lun)) = elim (mod'.split_udev_path (path_of tpg_lun)) [
        | err e ↦ err e
        | ok path ↦
            if text_eq path.0 pool_dev_name && text_eq path.1 vol
            then ok (some (n, tpg_lun))
            else rest
      ] in
      if mod'.has_udev_path (path_of tpg_lun) then split else rest

  -- What becomes of the search: the mapped LUN goes, and its LUN if no other is mapped to it.
  unfoldable pub unmap : Text → Option (ℕ × Lun) → Exec W (Unit {0})
  unmap wwn none = raise (targetd_error not_found_volume_export)
  unmap wwn (some (n, tpg_lun)) = t.delete_mapping wwn n >> tidy r pool_modules tpg_lun

  -- `if not any(t.tpgs): t.delete()`, and the two tests around it.
  unfoldable pub prune_target : Exec W (Unit {0})
  prune_target w = if t.has_tpgs w then skip w else t.delete_target w

  unfoldable pub prune_tpg : Exec W (Unit {0})
  unfolding prune_target
  prune_tpg w = if is_empty (t.node_acls w) then (t.delete_tpg >> prune_target) w else skip w

  unfoldable pub prune : Text → Exec W (Unit {0})
  unfolding prune_tpg
  prune wwn w = if is_empty (t.mapped_of wwn w) then (t.delete_acl wwn >> prune_tpg) w else skip w

  unfoldable pub export_destroy : Text → Text → Text → Exec W (Unit {0})
  unfolding find_export unmap prune
  export_destroy pool vol wwn = do
    mod' ← lift (pool_module pool_modules pool)
    t.open_tpg
    t.node_acl wwn
    pool_dev_name ← lift (mod'.pool2dev_name pool)
    mapped ← gets (t.mapped_of wwn)
    found ← lift (find_export mod' pool_dev_name vol mapped)
    unmap wwn found
    prune wwn
    r.save_to_file

  unfoldable pub initiator_set_auth :
      Text → Option Text → Option Text → Option Text → Option Text → Exec W (Unit {0})
  unfolding credentials
  initiator_set_auth wwn in_user in_pass out_user out_pass = do
    t.open_tpg
    t.node_acl wwn
    t.set_chap_userid wwn (credentials in_user in_pass).0
    t.set_chap_password wwn (credentials in_user in_pass).1
    t.set_chap_mutual_userid wwn (credentials out_user out_pass).0
    t.set_chap_mutual_password wwn (credentials out_user out_pass).1
    r.save_to_file
