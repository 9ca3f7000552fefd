-- ===== src/Backends/Lvm/Volumes/Laws.antt =====
-- What a successful `initialize` of targetd/backends/lvm.py tells of the configured pools.
use targetd.Prelude.{
  ◌≡◌, refl, inl, inr, Bool, false, Text, member, any, Option, none, some, List, [], ◌∷◌,
  if◌then◌else◌, arith,
}
use targetd.Utils.Errors.{ok, err, Result-cases, targetd_error, invalid}
use targetd.Backends.Lvm.Names.{Lvm, vg_lv}
use targetd.Backends.Lvm.Select.{named}
use targetd.Backends.Lvm.Volumes.{
  BlockDev, check_there, check_separate, check_pools, check_pools_access, initialize,
}

-- The pool is a thin pool inside a volume group that is a pool itself.
abbrev pub is_nested : List Text → Text → Bool
is_nested all_pools pool = elim (vg_lv pool) [
  | ok (vg_name, lv) ↦ elim (named lv) [ some _ ↦ member vg_name all_pools | none ↦ false ]
  | err _ ↦ false
]

module _ {W : Type 0} (bd : BlockDev W) where
  check_separate-ok :
      (vg_name : Text) (lv : Option Text) (all_pools : List Text) (w : W)
      → check_separate bd vg_name lv all_pools w ≡ (
          if elim (named lv) [ some _ ↦ member vg_name all_pools | none ↦ false ]
          then (err (targetd_error invalid), w)
          else (ok tt, w))
  unfolding check_separate
  check_separate-ok vg_name lv all_pools w = ground arith

  check_pools-ok :
      (pools all_pools : List Text) (w w' : W)
      → check_pools bd pools all_pools w ≡ (ok tt, w')
      → any (is_nested all_pools) pools ≡ false
  unfolding check_pools
  check_pools-ok [] all_pools w w' h = refl
  check_pools-ok (pool ∷ rest) all_pools w w' h = elim (Result-cases (vg_lv pool)) [
    | inl e ↦ ground arith
    | inr ((vg_name, lv), e) ↦ elim (Result-cases (check_there bd vg_name lv w).0) [
      | inl missing ↦ ground arith
      | inr (_, there) ↦ ground (
        arith,
        check_separate-ok vg_name lv all_pools (check_there bd vg_name lv w).1,
        check_pools-ok rest all_pools (check_there bd vg_name lv w).1 w',
      )
    ]
  ]

  -- `initialize` ends well only if no thin pool lies in a volume group that is configured as a pool
  -- too, and then the pools are those configured.
  pub initialize-is_nested :
      (lvm after : Lvm) (pools : List Text) (w w' : W)
      → initialize bd lvm pools w ≡ (ok after, w')
      → (any (is_nested pools) pools ≡ false) × (after.pools ≡ pools)
  unfolding initialize check_pools_access
  initialize-is_nested lvm after pools w w' h =
      (ground (arith, check_pools-ok pools pools w (check_pools bd pools pools w).1), ground arith)
