-- ===== src/Backends/Lvm/Volumes.antt =====
-- The operations of targetd/backends/lvm.py on volumes and pools. libblockdev is a parameter.
pub mod Laws
use targetd.Prelude.{
  ℕ, Bool, Text, text_eq, Option, none, some, List, [], ◌∷◌, any, map, member, if◌then◌else◌,
}
use targetd.Prelude.Dict.{Dict}
use targetd.Utils.Errors.{
  ℤ, Exception, targetd_error, lvm_error, runtime_error, name_conflict, unexpected_exit_code,
  not_found_volume_group, invalid, ErrorCode,
}
use targetd.Utils.Exec.{Exec, pure, raise, lift, catch, ◌>>=◌, ◌>>◌, raise_if, skip}
use targetd.Backends.Interface.{Volume, PoolInfo, VolInfo, BlockBackend}
use targetd.Backends.Lvm.Names
use targetd.Backends.Lvm.Names.{Lvm, vg_lv, register}
use targetd.Backends.Lvm.Select.{LogicalVolume, VolumeGroup, named, select, thinp_get_free_bytes}

-- The calls of `bd.lvm`, each of which may raise `LVMError`.
pub record BlockDev (W : Type 0) : Type 0 where
  pub lvinfo : Text → Text → Exec W LogicalVolume
  pub vginfo : Text → Exec W VolumeGroup
  pub lvs : Text → Exec W (List LogicalVolume)
  pub thlvcreate : Text → Text → Text → ℕ → Exec W (Unit {0})
  pub lvcreate : Text → Text → ℕ → Exec W (Unit {0})
  pub lvremove : Text → Text → Exec W (Unit {0})
  pub thsnapshotcreate : Text → Text → Text → Text → Exec W (Unit {0})
  pub lvresize : Text → Text → ℕ → Exec W (Unit {0})

module _ {W A : Type 0} where
  -- The handler of `except bd.LVMError`; other exceptions pass.
  abbrev pub on_lvm_error : Exec W A → Exception → Exec W A
  on_lvm_error handler lvm_error = handler
  on_lvm_error handler e = raise e

  abbrev pub except_lvm : Exec W A → Exec W A → Exec W A
  except_lvm m handler = catch m (on_lvm_error handler)

  abbrev pub fail : ErrorCode → Exec W A
  fail code = raise (targetd_error code)

module _ {W : Type 0} (bd : BlockDev W) where
  unfoldable pub volumes : Text → Exec W (List Volume)
  volumes pool = do
    (vg_name, lv_pool) ← lift (vg_lv pool)
    lvs ← bd.lvs vg_name
    lift (select (named lv_pool) lvs)

  abbrev pub named_in : Text → List Volume → Bool
  named_in name = any (λ v. text_eq v.name name)

  unfoldable pub create : Text → Text → ℕ → Exec W (Unit {0})
  create pool name size = do
    vols ← volumes pool
    raise_if (named_in name vols) (targetd_error name_conflict)
    (vg_name, lv_pool) ← lift (vg_lv pool)
    elim (named lv_pool) [
      | some thin ↦
          except_lvm (bd.thlvcreate vg_name thin name size) (bd.lvcreate vg_name name size)
      | none ↦ bd.lvcreate vg_name name size
    ]

  unfoldable pub destroy : Text → Text → Exec W (Unit {0})
  destroy pool name = do (vg_name, _) ← lift (vg_lv pool); bd.lvremove vg_name name

  unfoldable pub copy : Text → Text → Text → Option ℕ → Exec W (Unit {0})
  copy pool vol_orig vol_new size = do
    vols ← volumes pool
    raise_if (named_in vol_new vols) (targetd_error name_conflict)
    (vg_name, lv_pool) ← lift (vg_lv pool)
    elim (named lv_pool) [
      | none ↦ raise runtime_error
      | some thin_pool ↦
          (except_lvm (bd.thsnapshotcreate vg_name vol_orig vol_new thin_pool)
              (fail unexpected_exit_code)
            >> elim size [
              | none ↦ skip
              | some bytes ↦
                  except_lvm (bd.lvresize vg_name vol_new bytes) (fail unexpected_exit_code)
            ])
    ]

  unfoldable pub resize : Text → Text → ℕ → Exec W (Unit {0})
  resize pool name size = do
    (vg_name, _) ← lift (vg_lv pool)
    except_lvm (bd.lvresize vg_name name size) (fail unexpected_exit_code)

  unfoldable pub vol_info : Text → Text → Exec W (Option VolInfo)
  vol_info pool name = do
    dev ← lift (Names.pool2dev_name pool)
    lv ← bd.lvinfo dev name
    pure (some (record { uuid = lv.uuid; size = lv.size }))

  -- The first half of a round of `check_pools_access`: the pool is there.
  unfoldable pub check_there : Text → Option Text → Exec W (Unit {0})
  check_there vg_name lv = elim (if member vg_name ([] ∷ []) then none else named lv) [
    | some thin_pool ↦
        (except_lvm (bd.lvinfo vg_name thin_pool) (fail not_found_volume_group) >>= λ _. skip)
    | none ↦ (except_lvm (bd.vginfo vg_name) (fail not_found_volume_group) >>= λ _. skip)
  ]

  -- The second half: the group of a thin pool is no pool itself.
  unfoldable pub check_separate : Text → Option Text → List Text → Exec W (Unit {0})
  check_separate vg_name lv all_pools = elim (named lv) [
    | some _ ↦ raise_if (member vg_name all_pools) (targetd_error invalid)
    | none ↦ skip
  ]

  -- The loop of `check_pools_access` over the pools still to check.
  unfoldable pub check_pools : List Text → List Text → Exec W (Unit {0})
  unfolding check_there check_separate
  check_pools [] all_pools = skip
  check_pools (pool ∷ rest) all_pools = do
    (vg_name, lv) ← lift (vg_lv pool)
    check_there vg_name lv
    check_separate vg_name lv all_pools
    check_pools rest all_pools

  unfoldable pub check_pools_access : List Text → Exec W (Unit {0})
  unfolding check_pools
  check_pools_access pools = check_pools pools pools

  -- The module's variables as `initialize` leaves them.
  unfoldable pub initialize : Lvm → List Text → Exec W Lvm
  initialize lvm init_pools = do
    check_pools_access init_pools
    pure (record {
      pools = init_pools;
      vg_name_2_pool_name_dict = register init_pools lvm.vg_name_2_pool_name_dict;
    })

  module _ (estimate : ℕ → ℤ → ℤ → ℤ) where
    unfoldable pub pool_info : Text → Exec W PoolInfo
    pool_info pool = do
      (vg_name, tp) ← lift (vg_lv pool)
      elim (named tp) [
        | none ↦
            (bd.vginfo vg_name >>= λ vg.
            pure (record { name = pool; size = vg.size; free_size = vg.free; uuid = some vg.uuid }))
        | some tp_name ↦
            (bd.lvinfo vg_name tp_name >>= λ thinp. pure (record {
              name = pool;
              size = thinp.size;
              free_size = thinp_get_free_bytes estimate thinp;
              uuid = some thinp.uuid;
            }))
      ]

    -- The loop of `block_pools`.
    unfoldable pub block_pools : List Text → Exec W (List PoolInfo)
    unfolding pool_info
    block_pools [] = pure []
    block_pools (pool ∷ pools) = do
      result ← pool_info pool
      results ← block_pools pools
      pure (result ∷ results)

    -- The module as targetd/block.py calls it.
    abbrev pub lvm_backend : Lvm → BlockBackend W
    lvm_backend lvm = record {
      has_pool = Names.has_pool lvm;
      has_udev_path = Names.has_udev_path lvm;
      has_so_name = Names.has_so_name lvm;
      split_udev_path = Names.split_udev_path;
      pool2dev_name = Names.pool2dev_name;
      dev2pool_name = Names.dev2pool_name lvm;
      get_so_name = Names.get_so_name;
      so_name2pool_volume = Names.so_name2pool_volume lvm;
      get_dev_path = Names.get_dev_path;
      volumes = volumes;
      create = create;
      destroy = destroy;
      copy = copy;
      resize = resize;
      vol_info = vol_info;
      block_pools = block_pools lvm.pools;
    }
