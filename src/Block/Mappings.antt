-- ===== src/Block/Mappings.antt =====
-- The volumes that access groups see, of targetd/block.py. rtslib is a parameter: the handles of its
-- storage objects and LUNs, and what it shows of the target.
pub mod Laws
pub mod Found
use targetd.Prelude.{
  ℕ, zero, suc, ◌+◌, Bool, true, false, not, ◌&&◌, ◌==◌, Text, text_eq, any, Option, none, some,
  List, [], ◌∷◌, ◌++◌, if◌then◌else◌,
}
use targetd.Utils.Errors.{
  Result, ok, err, targetd_error, not_found_access_group, no_free_host_lun_id, attribute_error,
}
use targetd.Utils.Exec.{Exec, pure, raise, lift, gets, ◌>>=◌, ◌>>◌, raise_if, skip}
use targetd.Backends.Interface.{BlockBackend, VolInfo}
use targetd.Block.Volumes.{pool_module, so_name_module}

pub record Rtslib (W Storage Lun : Type 0) : Type 0 where
  pub get_iscsi_tpg : Exec W (Unit {0})
  -- `tpg.enable = True`, the attribute, and `set_portal_addresses`
  pub enable : Exec W (Unit {0})
  -- `BlockStorageObject(so_name)`, nothing for its `RTSLibError`
  pub open_so : Text → W → Option Storage
  pub create_so : Text → Text → Exec W Storage
  pub set_wwn : Storage → Text → Exec W (Unit {0})
  -- The attribute `emulate_model_alias`, without its `RTSLibError`
  pub emulate_model_alias : Storage → Exec W (Unit {0})
  pub so_name : Storage → Text
  pub is_block : Storage → Bool
  pub delete_so : Storage → Exec W (Unit {0})
  -- `tpg.luns`, `LUN(tpg, storage_object=so)`, `tpg_lun.mapped_luns`
  pub luns : W → List Lun
  pub new_lun : Storage → Exec W Lun
  pub storage_object : Lun → Storage
  pub same_lun : Lun → Lun → Bool
  pub mapped_luns : Lun → W → List ℕ
  pub delete_lun : Lun → Exec W (Unit {0})
  -- The names of `tpg.node_acl_groups`, and the `wwns` and `mapped_lun_groups` of a group
  pub group_names : W → List Text
  pub wwns_of : Text → W → List Text
  pub mapped_lun_groups : Text → W → List (ℕ × Lun)
  pub map_lun : Text → ℕ → Lun → Exec W (Unit {0})
  pub unmap_lun : Text → ℕ → Exec W (Unit {0})
  pub save_to_file : Exec W (Unit {0})

abbrev pub is_empty {ℓ} : {A : Type ℓ} → List A → Bool
is_empty [] = true
is_empty (_ ∷ _) = false

-- `range(n)`
unfoldable pub range_from : ℕ → ℕ → List ℕ
range_from a zero = []
range_from a (suc n) = a ∷ range_from (a + 1) n

abbrev pub is_in : ℕ → List ℕ → Bool
is_in n = any (λ m. n == m)

-- `xs - used`
unfoldable pub difference : List ℕ → List ℕ → List ℕ
difference [] used = []
difference (x ∷ xs) used = let rest = difference xs used in if is_in x used then rest else x ∷ rest

-- The choice of a host LUN; `pop` is `set.pop`, which takes some element.
unfoldable pub free_h_lun_id : (List ℕ → Option ℕ) → ℕ → List ℕ → Result ℕ
unfolding range_from difference
free_h_lun_id pop max_lun used = elim (pop (difference (range_from 0 (max_lun + 1)) used)) [
  | none ↦ err (targetd_error no_free_host_lun_id)
  | some h_lun_id ↦ ok h_lun_id
]

-- An entry of the list of `access_group_map_list`.
pub record Mapping : Type 0 where
  pub ag_name : Text
  pub h_lun_id : ℕ
  pub pool_name : Text
  pub vol_name : Text

-- The loop of `access_group_map_create` over the mappings.
abbrev pub is_masked : Text → Text → Text → List Mapping → Bool
is_masked ag_name pool_name vol_name = any (λ m.
    text_eq m.ag_name ag_name && (text_eq m.pool_name pool_name && text_eq m.vol_name vol_name))

module _ {W Storage Lun : Type 0} (r : Rtslib W Storage Lun)
    (pool_modules : List (BlockBackend W)) where
  -- The loops of `access_group_map_list`: over the mappings of a group, and over the groups.
  unfoldable pub mappings_of : Text → List (ℕ × Lun) → Result (List Mapping)
  mappings_of ag_name [] = ok []
  mappings_of ag_name ((h_lun_id, tpg_lun) ∷ mapped) =
      let rest = mappings_of ag_name mapped in
      let so_name = r.so_name (r.storage_object tpg_lun) in
      elim (so_name_module pool_modules so_name) [
        | err e ↦ err e
        | ok mod' ↦ elim (mod'.so_name2pool_volume so_name) [
          | err e ↦ err e
          | ok (pool_name, vol_name) ↦ elim rest [
            | err e ↦ err e
            | ok ms ↦ ok (
                record {
                  ag_name = ag_name;
                  h_lun_id = h_lun_id;
                  pool_name = pool_name;
                  vol_name = vol_name;
                }
                ∷ ms)
          ]
        ]
      ]

  unfoldable pub mappings : List Text → Exec W (List Mapping)
  unfolding mappings_of
  mappings [] = pure []
  mappings (ag_name ∷ names) = do
    mapped ← gets (r.mapped_lun_groups ag_name)
    these ← lift (mappings_of ag_name mapped)
    rest ← mappings names
    pure (these ++ rest)

  unfoldable pub access_group_map_list : Exec W (List Mapping)
  unfolding mappings
  access_group_map_list = do r.get_iscsi_tpg; names ← gets r.group_names; mappings names

  -- `try: BlockStorageObject(so_name) except RTSLibError: …`
  unfoldable pub storage_object_of : BlockBackend W → Text → Text → Text → Text → Exec W Storage
  storage_object_of mod' pool_name vol_name so_name vol_serial w = elim (r.open_so so_name w) [
    | some so ↦ pure so w
    | none ↦
        (lift (mod'.get_dev_path pool_name vol_name) >>= λ dev.
        r.create_so so_name dev >>= λ so. r.set_wwn so vol_serial >>= λ _. pure so)
          w
  ]

  -- The loop of `_tpg_lun_of` over the LUNs, which makes one if none fits.
  unfoldable pub find_lun : Storage → List Lun → Exec W Lun
  find_lun so [] = r.new_lun so
  find_lun so (tmp_lun ∷ luns) =
      let rest = find_lun so luns in
      if text_eq (r.so_name (r.storage_object tmp_lun)) (r.so_name so)
        && r.is_block (r.storage_object tmp_lun)
      then pure tmp_lun
      else rest

  -- `_tpg_lun_of`; a volume without information has no attribute `uuid`.
  unfoldable pub tpg_lun_of : Text → Text → Exec W Lun
  unfolding storage_object_of find_lun
  tpg_lun_of pool_name vol_name = do
    mod' ← lift (pool_module pool_modules pool_name)
    info ← mod'.vol_info pool_name vol_name
    vol_serial ← elim info [ some i ↦ pure i.uuid | none ↦ raise attribute_error ]
    so_name ← lift (mod'.get_so_name pool_name vol_name)
    so ← storage_object_of mod' pool_name vol_name so_name vol_serial
    r.emulate_model_alias so
    luns ← gets r.luns
    find_lun so luns

  -- `any(tpg_lun.mapped_luns)` and the search for the volume among the mappings.
  unfoldable pub already_masked : Text → Text → Text → Lun → Exec W Bool
  unfolding access_group_map_list
  already_masked pool_name vol_name ag_name tpg_lun w =
      if is_empty (r.mapped_luns tpg_lun w)
      then pure false w
      else (access_group_map_list >>= λ ms. pure (is_masked ag_name pool_name vol_name ms)) w

  module _ (pop : List ℕ → Option ℕ) (max_lun : ℕ) where
    -- The part of `access_group_map_create` behind the early return.
    unfoldable pub map_new : Text → Option ℕ → Lun → Exec W (Unit {0})
    unfolding free_h_lun_id
    map_new ag_name h_lun_id tpg_lun = do
      wwns ← gets (r.wwns_of ag_name)
      raise_if (is_empty wwns) (targetd_error not_found_access_group)
      used ← gets (r.mapped_luns tpg_lun)
      id ← lift (elim h_lun_id [ some n ↦ ok n | none ↦ free_h_lun_id pop max_lun used ])
      r.map_lun ag_name id tpg_lun
      r.save_to_file

    unfoldable pub access_group_map_create : Text → Text → Text → Option ℕ → Exec W (Unit {0})
    unfolding tpg_lun_of already_masked map_new
    access_group_map_create pool_name vol_name ag_name h_lun_id = do
      r.get_iscsi_tpg
      r.enable
      tpg_lun ← tpg_lun_of pool_name vol_name
      masked ← already_masked pool_name vol_name ag_name tpg_lun
      if masked then skip else map_new ag_name h_lun_id tpg_lun

  -- The loop of `access_group_map_destroy`.
  unfoldable pub unmap_all : Text → Lun → List (ℕ × Lun) → Exec W (Unit {0})
  unmap_all ag_name tpg_lun [] = skip
  unmap_all ag_name tpg_lun ((h_lun_id, lun) ∷ mapped) = do
    if r.same_lun lun tpg_lun then r.unmap_lun ag_name h_lun_id else skip
    unmap_all ag_name tpg_lun mapped

  -- A LUN without mappings is removed with its storage object.
  unfoldable pub tidy : Lun → Exec W (Unit {0})
  tidy tpg_lun w =
      if is_empty (r.mapped_luns tpg_lun w)
      then (r.delete_lun tpg_lun >> r.delete_so (r.storage_object tpg_lun)) w
      else skip w

  unfoldable pub access_group_map_destroy : Text → Text → Text → Exec W (Unit {0})
  unfolding tpg_lun_of unmap_all tidy
  access_group_map_destroy pool_name vol_name ag_name = do
    r.get_iscsi_tpg
    tpg_lun ← tpg_lun_of pool_name vol_name
    mapped ← gets (r.mapped_lun_groups ag_name)
    unmap_all ag_name tpg_lun mapped
    tidy tpg_lun
    r.save_to_file
