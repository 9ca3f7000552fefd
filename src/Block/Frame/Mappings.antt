-- ===== src/Block/Frame/Mappings.antt =====
-- The functions on the mappings of LUNs of targetd/block.py put no initiator into a second access
-- group.
use targetd.Prelude.{
  ℕ, Text, Option, Option-cases, none, some, List, [], ◌∷◌, ◌++◌, Bool-cases, inl, inr,
}
use targetd.Utils.Errors.{attribute_error}
use targetd.Utils.Exec.{Exec, pure, raise, lift, gets, ◌>>=◌, ◌>>◌}
use targetd.Utils.Keeps.{keeps_rules, pure-Keeps, raise-Keeps, if-Keeps, skip-Keeps, >>=-Keeps}
use targetd.Backends.Interface.{BlockBackend, VolInfo}
use targetd.Block.AccessGroups.{Group}
use targetd.Block.Parts.{Parts}
use targetd.Block.Frame.{KeepsGroups, RtslibShrinks}
use targetd.Block.Frame.Calls.{unmap_lun_of, rtslib_rules}
use targetd.Block.Frame.Modules.{AllModules, pool_module-Keeps, vol_info_of, vol_info_of}
use targetd.Block.Mappings.{
  is_empty, is_masked, mappings_of, mappings, access_group_map_list, storage_object_of, find_lun,
  tpg_lun_of, already_masked, map_new, access_group_map_create, unmap_all, tidy,
  access_group_map_destroy,
}

module _ {W Storage Lun : Type 0} (p : Parts W Storage Lun) (groups : W → List Group)
    (laws : RtslibShrinks p groups) (all : AllModules groups p.pool_modules) where
  mappings_step :
      (n : Text) (names : List Text)
      → KeepsGroups groups (mappings p.rtslib p.pool_modules names)
      → KeepsGroups groups (
          gets (p.rtslib.mapped_lun_groups n) >>= λ mapped.
          lift (mappings_of p.rtslib p.pool_modules n mapped) >>= λ these.
          mappings p.rtslib p.pool_modules names >>= λ rest. pure (these ++ rest))
  mappings_step n names rest = search keeps_rules

  mappings-Keeps : (names : List Text) → KeepsGroups groups (mappings p.rtslib p.pool_modules names)
  unfolding mappings
  mappings-Keeps [] = search keeps_rules
  mappings-Keeps (n ∷ names) = mappings_step n names (mappings-Keeps names)

  pub access_group_map_list-Keeps :
      KeepsGroups groups (access_group_map_list p.rtslib p.pool_modules)
  unfolding access_group_map_list
  access_group_map_list-Keeps = search (mappings-Keeps, keeps_rules, rtslib_rules)

  storage_object_of-Keeps :
      (b : BlockBackend W) (pool vol so serial : Text)
      → KeepsGroups groups (storage_object_of p.rtslib p.pool_modules b pool vol so serial)
  unfolding storage_object_of
  storage_object_of-Keeps b pool vol so serial = record {
    keeps = λ w h. elim (Option-cases (p.rtslib.open_so so w)) [
      | inr (old, e) ↦ rw (e, storage_object_of) h
      | inl e ↦
          let made : KeepsGroups groups (
              lift (b.get_dev_path pool vol) >>= λ dev.
              p.rtslib.create_so so dev >>= λ new. p.rtslib.set_wwn new serial >>= λ _. pure new) =
            search (keeps_rules, rtslib_rules) in
          rw (e, storage_object_of) (made.keeps w h)
    ];
  }

  find_lun-Keeps :
      (so : Storage) (luns : List Lun)
      → KeepsGroups groups (find_lun p.rtslib p.pool_modules so luns)
  unfolding find_lun
  find_lun-Keeps so [] = search rtslib_rules
  find_lun-Keeps so (l ∷ luns) = if-Keeps _ (pure-Keeps l) (find_lun-Keeps so luns)

  serial-Keeps :
      (info : Option VolInfo)
      → KeepsGroups groups
          (elim info as (λ _. Exec W Text) [ some i ↦ pure i.uuid | none ↦ raise attribute_error ])
  serial-Keeps none = raise-Keeps attribute_error
  serial-Keeps (some i) = pure-Keeps i.uuid

  -- The part of `_tpg_lun_of` behind the serial number.
  made-Keeps :
      (b : BlockBackend W) (pool vol serial : Text)
      → KeepsGroups groups (
          lift (b.get_so_name pool vol) >>= λ so_name.
          storage_object_of p.rtslib p.pool_modules b pool vol so_name serial >>= λ so.
          p.rtslib.emulate_model_alias so
          >> (gets p.rtslib.luns >>= λ luns. find_lun p.rtslib p.pool_modules so luns))
  made-Keeps b pool vol serial =
      search (storage_object_of-Keeps, find_lun-Keeps, keeps_rules, rtslib_rules) depth 12

  pub tpg_lun_of-Keeps :
      (pool vol : Text) → KeepsGroups groups (tpg_lun_of p.rtslib p.pool_modules pool vol)
  unfolding tpg_lun_of
  tpg_lun_of-Keeps pool vol =
      pool_module-Keeps groups p.pool_modules all
        (λ b x.
          >>=-Keeps (vol_info_of x pool vol)
            (λ info. >>=-Keeps (serial-Keeps info) (λ serial. made-Keeps b pool vol serial)))
        pool

  pub tidy-Keeps : (l : Lun) → KeepsGroups groups (tidy p.rtslib p.pool_modules l)
  unfolding tidy
  tidy-Keeps l = record {
    keeps = λ w h. elim (Bool-cases (is_empty (p.rtslib.mapped_luns l w))) [
      | inr used ↦ rw (used, tidy) h
      | inl unused ↦
          let gone : KeepsGroups groups
              (p.rtslib.delete_lun l >> p.rtslib.delete_so (p.rtslib.storage_object l)) =
            search (keeps_rules, rtslib_rules) in
          rw (unused, tidy) (gone.keeps w h)
    ];
  }

  already_masked-Keeps :
      (pool vol ag : Text) (l : Lun)
      → KeepsGroups groups (already_masked p.rtslib p.pool_modules pool vol ag l)
  unfolding already_masked
  already_masked-Keeps pool vol ag l = record {
    keeps = λ w h. elim (Bool-cases (is_empty (p.rtslib.mapped_luns l w))) [
      | inl unused ↦ rw (unused, already_masked) h
      | inr used ↦
          let asked : KeepsGroups groups (
              access_group_map_list p.rtslib p.pool_modules >>= λ ms.
              pure (is_masked ag pool vol ms)) =
            search (access_group_map_list-Keeps, keeps_rules) in
          rw (used, already_masked) (asked.keeps w h)
    ];
  }

  map_new-Keeps :
      (ag : Text) (h_lun_id : Option ℕ) (l : Lun)
      → KeepsGroups groups (map_new p.rtslib p.pool_modules p.pop p.max_lun ag h_lun_id l)
  unfolding map_new
  map_new-Keeps ag h_lun_id l = search (keeps_rules, rtslib_rules) depth 12

  pub access_group_map_create-Keeps :
      (pool vol ag : Text) (h_lun_id : Option ℕ)
      → KeepsGroups groups
          (access_group_map_create p.rtslib p.pool_modules p.pop p.max_lun pool vol ag h_lun_id)
  unfolding access_group_map_create
  access_group_map_create-Keeps pool vol ag h_lun_id =
      search (tpg_lun_of-Keeps, already_masked-Keeps, map_new-Keeps, keeps_rules, rtslib_rules)
        depth 12

  unmap_all-Keeps :
      (ag : Text) (l : Lun) (mapped : List (ℕ × Lun))
      → KeepsGroups groups (unmap_all p.rtslib p.pool_modules ag l mapped)
  unfolding unmap_all
  unmap_all-Keeps ag l [] = skip-Keeps
  unmap_all-Keeps ag l ((n, k) ∷ mapped) =
      >>=-Keeps (if-Keeps _ (unmap_lun_of laws ag n) skip-Keeps) (λ _. unmap_all-Keeps ag l mapped)

  pub access_group_map_destroy-Keeps :
      (pool vol ag : Text)
      → KeepsGroups groups (access_group_map_destroy p.rtslib p.pool_modules pool vol ag)
  unfolding access_group_map_destroy
  access_group_map_destroy-Keeps pool vol ag =
      search (tpg_lun_of-Keeps, unmap_all-Keeps, tidy-Keeps, keeps_rules, rtslib_rules) depth 12
