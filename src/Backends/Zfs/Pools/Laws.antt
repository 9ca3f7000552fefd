-- ===== src/Backends/Zfs/Pools/Laws.antt =====
-- What the initialisation of targetd/backends/zfs.py guarantees of the configured pools.
use targetd.Prelude.{◌≡◌, Bool, false, ◌||◌, arith, Text, has_code, List, any, All, any-All}
use targetd.Prelude.Split.{Lacks}
use targetd.Utils.Errors.{ok}
use targetd.Utils.Exec.{pure, >>=-Runs}
use targetd.Backends.Zfs.Names.{Zfs, has_nested}
use targetd.Backends.Zfs.Command.{Machine}
use targetd.Backends.Zfs.Pools.{check_pools_access, initialize}

module _ {W : Type 0} (m : Machine W) where
  check_pools_access-ok :
      (zfs zfs' : Zfs) (ps : List Text) (w w' : W)
      → check_pools_access m zfs ps w ≡ (ok zfs', w')
      → (has_nested ps ≡ false) × (any (λ p. has_code b':' p) ps ≡ false)
  unfolding check_pools_access
  check_pools_access-ok zfs zfs' ps w w' h = ground arith

  registered :
      (z zfs' : Zfs) (ps : List Text) (w w' : W)
      → pure (record z { pools = ps }) w ≡ (ok zfs', w')
      → zfs'.pools ≡ ps
  registered z zfs' ps w w' h = ground arith

  -- After a successful initialisation the pools are the configured ones, none of them lies in
  -- another, and no pool has a colon in its name.
  pub initialize-ok :
      (zfs zfs' : Zfs) (enable_copy : Bool) (init_pools : List Text) (w w' : W)
      → initialize m zfs enable_copy init_pools w ≡ (ok zfs', w')
      → (zfs'.pools ≡ init_pools) × (has_nested zfs'.pools ≡ false) × All (Lacks b':') zfs'.pools
  unfolding initialize
  initialize-ok zfs zfs' enable_copy ps w w' h =
      let step =
        >>=-Runs
          (check_pools_access m
            (record zfs { zfs_enable_copy = zfs.zfs_enable_copy || enable_copy }) ps)
          (λ z. pure (record z { pools = ps })) w h in
      let checked = check_pools_access-ok _ step.value ps w step.state step.first in
      let same : zfs'.pools ≡ ps = registered step.value zfs' ps step.state w' step.second in
      (same, rw same checked.0, rw same (any-All (λ p. has_code b':' p) ps checked.1))
