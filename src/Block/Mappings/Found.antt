-- ===== src/Block/Mappings/Found.antt =====
-- The LUN that `_tpg_lun_of` of targetd/block.py finds or makes.
use targetd.Prelude.{
  ◌≡◌, ap, sym, ◌∙◌, subst, arith, true, inl, inr, Bool-cases, Text, text_eq, text_eq_iff, ◌&&◌,
  List, [], ◌∷◌, Option, some, none, Option-cases,
}
use targetd.Utils.Errors.{ok, Result, attribute_error}
use targetd.Utils.Exec.{Exec, gets, lift, pure, raise, ◌>>=◌, ◌>>◌, >>=-Runs}
use targetd.Backends.Interface.{BlockBackend, VolInfo}
use targetd.Block.Volumes.{pool_module}
use targetd.Block.Mappings.{Rtslib, find_lun, storage_object_of, tpg_lun_of}

module _ {W Storage Lun : Type 0} (r : Rtslib W Storage Lun) where
  -- Storage objects have the name with which they are opened or made, and are block storage
  -- objects; a new LUN is one of its storage object.
  pub record IsNamed : Type 0 where
    pub opened :
        (name : Text) (w : W) (so : Storage)
        → r.open_so name w ≡ some so
        → (r.so_name so ≡ name) × (r.is_block so ≡ true)
    pub made :
        (name dev : Text) (w w' : W) (so : Storage)
        → r.create_so name dev w ≡ (ok so, w')
        → (r.so_name so ≡ name) × (r.is_block so ≡ true)
    pub new_lun :
        (so : Storage) (w w' : W) (l : Lun) → r.new_lun so w ≡ (ok l, w') → r.storage_object l ≡ so

  -- A LUN whose storage object is a block storage object, by the name that the back end of the
  -- pool gives to the volume.
  pub record IsLunOf (pool_modules : List (BlockBackend W)) (pool vol : Text) (l : Lun)
      : Type 0 where
    pub backend : BlockBackend W
    pub so_name : Text
    pub of_pool : pool_module pool_modules pool ≡ ok backend
    pub of_vol : backend.get_so_name pool vol ≡ ok so_name
    pub is_named : r.so_name (r.storage_object l) ≡ so_name
    pub is_block : r.is_block (r.storage_object l) ≡ true

  module _ (laws : IsNamed) (pool_modules : List (BlockBackend W)) where
    find_lun-ok :
        (so : Storage) (luns : List Lun) (w w' : W) (l : Lun)
        → r.is_block so ≡ true
        → find_lun r pool_modules so luns w ≡ (ok l, w')
        → (r.so_name (r.storage_object l) ≡ r.so_name so) × (r.is_block (r.storage_object l) ≡ true)
    unfolding find_lun
    find_lun-ok so [] w w' l block h =
        let e = laws.new_lun so w w' l h in (ap r.so_name e, ap r.is_block e ∙ block)
    find_lun-ok so (m ∷ luns) w w' l block h =
        elim (Bool-cases (
          text_eq (r.so_name (r.storage_object m)) (r.so_name so)
          && r.is_block (r.storage_object m))) [
            | inl fits ↦
                subst
                  (λ k.
                    (r.so_name (r.storage_object k) ≡ r.so_name so)
                    × (r.is_block (r.storage_object k) ≡ true))
                  {x = m} {y = l} (ground (arith, fits, h))
                  ((
                    ground
                        (arith, fits, text_eq_iff (r.so_name (r.storage_object m)) (r.so_name so)),
                    ground (arith, fits),
                  ))
            | inr other ↦ find_lun-ok so luns w w' l block (ground (arith, other, h))
          ]

    -- The parts of the code that makes a storage object.
    abbrev set_serial : Text → Storage → Exec W Storage
    set_serial serial so = r.set_wwn so serial >>= λ _. pure so

    abbrev create_with : Text → Text → Text → Exec W Storage
    create_with name serial dev = r.create_so name dev >>= set_serial serial

    storage_object_of-ok :
        (b : BlockBackend W) (pool vol name serial : Text) (w w' : W) (so : Storage)
        → storage_object_of r pool_modules b pool vol name serial w ≡ (ok so, w')
        → (r.so_name so ≡ name) × (r.is_block so ≡ true)
    unfolding storage_object_of
    storage_object_of-ok b pool vol name serial w w' so h = elim (Option-cases (r.open_so name w)) [
      | inr (found, e) ↦
          subst (λ k. (r.so_name k ≡ name) × (r.is_block k ≡ true)) {x = found} {y = so}
            (ground (arith, e, h)) (laws.opened name w found e)
      | inl e ↦
          let a = >>=-Runs (lift (b.get_dev_path pool vol)) (create_with name serial) w (
            sym (
              ap
                (λ o. elim o as (λ _. Result Storage × W) [
                  | some so ↦ (ok so, w)
                  | none ↦ (lift (b.get_dev_path pool vol) >>= create_with name serial) w
                ])
                e)
            ∙ h) in
          let c = >>=-Runs (r.create_so name a.value) (set_serial serial) a.state a.second in
          let d = >>=-Runs (r.set_wwn c.value serial) (λ _. pure c.value) c.state c.second in
          subst (λ k. (r.so_name k ≡ name) × (r.is_block k ≡ true)) {x = c.value} {y = so}
            (ground (arith, d.second)) (laws.made name a.value a.state c.state c.value c.first)
    ]

    -- The attribute `uuid` of the information.
    abbrev serial_of : Option VolInfo → Exec W Text
    serial_of info = elim info [ some i ↦ pure i.uuid | none ↦ raise attribute_error ]

    -- The parts of `_tpg_lun_of` behind each of its calls.
    abbrev with_so : Storage → Exec W Lun
    with_so so = r.emulate_model_alias so >> (gets r.luns >>= find_lun r pool_modules so)

    abbrev with_name : BlockBackend W → Text → Text → Text → Text → Exec W Lun
    with_name b pool vol serial name =
        storage_object_of r pool_modules b pool vol name serial >>= with_so

    abbrev with_serial : BlockBackend W → Text → Text → Text → Exec W Lun
    with_serial b pool vol serial = lift (b.get_so_name pool vol) >>= with_name b pool vol serial

    abbrev with_info : BlockBackend W → Text → Text → Option VolInfo → Exec W Lun
    with_info b pool vol info = serial_of info >>= with_serial b pool vol

    abbrev with_backend : Text → Text → BlockBackend W → Exec W Lun
    with_backend pool vol b = b.vol_info pool vol >>= with_info b pool vol

    -- The LUN is one of the volume, whether it was there or is new.
    pub tpg_lun_of-IsLunOf :
        (pool vol : Text) (w w' : W) (l : Lun)
        → tpg_lun_of r pool_modules pool vol w ≡ (ok l, w')
        → IsLunOf pool_modules pool vol l
    unfolding tpg_lun_of
    tpg_lun_of-IsLunOf pool vol w w' l h =
        let a = >>=-Runs (lift (pool_module pool_modules pool)) (with_backend pool vol) w h in
        let b = a.value in
        let c = >>=-Runs (b.vol_info pool vol) (with_info b pool vol) a.state a.second in
        let d = >>=-Runs (serial_of c.value) (with_serial b pool vol) c.state c.second in
        let e =
          >>=-Runs (lift (b.get_so_name pool vol)) (with_name b pool vol d.value) d.state
            d.second in
        let f =
          >>=-Runs (storage_object_of r pool_modules b pool vol e.value d.value) with_so e.state
            e.second in
        let g =
          >>=-Runs (r.emulate_model_alias f.value)
            (λ _. gets r.luns >>= find_lun r pool_modules f.value) f.state f.second in
        let so = storage_object_of-ok b pool vol e.value d.value e.state f.state f.value f.first in
        let found = find_lun-ok f.value (r.luns g.state) g.state w' l so.1 g.second in
        record {
          backend = b;
          so_name = e.value;
          of_pool = ap (λ x. x.0) a.first;
          of_vol = ap (λ x. x.0) e.first;
          is_named = found.0 ∙ so.0;
          is_block = found.1;
        }
