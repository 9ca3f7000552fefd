-- ===== src/Backends/Lvm/Names.antt =====
-- The names of targetd/backends/lvm.py: pools, device paths and storage objects. A pool is named
-- by its volume group, or by its group and its thin pool with a `/` between.
pub mod Laws
use targetd.Prelude.{
  Bool, true, false, Text, codes, has_code, member, Option, none, some, List, [], ◌∷◌, ◌++◌, map,
  if◌then◌else◌,
}
use targetd.Prelude.Split.{split}
use targetd.Prelude.Dict.{Dict, lookup, insert}
use targetd.Utils.Errors.{Result, ok, err, value_error, key_error, ◌>>=◌}

-- The variables of the module.
pub record Lvm : Type 0 where
  pub pools : List Text
  pub vg_name_2_pool_name_dict : Dict Text

-- The parts of the name, or the name and `None`.
unfoldable pub get_vg_lv : Text → List (Option Text)
get_vg_lv pool_name =
    if has_code b'/' pool_name then map some (split b'/' pool_name) else some pool_name ∷ none ∷ []

-- `get_vg_lv(pool)[0]`, which is never `None`.
abbrev pub vg_of : Text → Text
vg_of pool_name = elim (get_vg_lv pool_name) [ some vg ∷ _ ↦ vg | _ ↦ [] ]

-- `vg_name, thin_pool = get_vg_lv(pool)`
abbrev pub unpack_vg : List (Option Text) → Result (Text × Option Text)
unpack_vg (some vg ∷ lv ∷ []) = ok (vg, lv)
unpack_vg _ = err value_error

unfoldable pub vg_lv : Text → Result (Text × Option Text)
unfolding get_vg_lv
vg_lv pool = unpack_vg (get_vg_lv pool)

module _ (lvm : Lvm) where
  unfoldable pub has_pool : Text → Bool
  has_pool pool_name = member (vg_of pool_name) (map vg_of lvm.pools)

-- `x, y = parts`
abbrev pub unpack_two : List Text → Result (Text × Text)
unpack_two (a ∷ b ∷ []) = ok (a, b)
unpack_two _ = err value_error

-- `parts[2:]`
abbrev pub from_third : List Text → List Text
from_third (_ ∷ _ ∷ parts) = parts
from_third _ = []

-- `split_udev_path`, with the unpacking that every caller does.
unfoldable pub split_udev_path : Text → Result (Text × Text)
split_udev_path udev_path = unpack_two (from_third (split b'/' udev_path))

unfoldable pub pool2dev_name : Text → Result Text
pool2dev_name pool = vg_lv pool >>= λ (vg_name, _). ok vg_name

unfoldable pub get_so_name : Text → Text → Result Text
get_so_name pool volname = vg_lv pool >>= λ (vg_name, _). ok (vg_name ++ (b':' ∷ volname))

unfoldable pub get_dev_path : Text → Text → Result Text
get_dev_path pool_name vol_name =
    pool2dev_name pool_name >>= λ dev. ok (codes "/dev/" ++ (dev ++ (b'/' ∷ vol_name)))

module _ (lvm : Lvm) where
  unfoldable pub has_udev_path : Text → Bool
  has_udev_path udev_path = elim (split_udev_path udev_path) [
    | ok (vg, _) ↦ has_pool lvm vg
    | err _ ↦ false
  ]

  unfoldable pub dev2pool_name : Text → Result Text
  dev2pool_name dev = elim (lookup dev lvm.vg_name_2_pool_name_dict) [
    | some pool ↦ ok pool
    | none ↦ err key_error
  ]

  unfoldable pub so_name2pool_volume : Text → Result (Text × Text)
  so_name2pool_volume so_name = unpack_two (split b':' so_name) >>= λ (vg_name, vol_name).
      dev2pool_name vg_name >>= λ pool_name. ok (pool_name, vol_name)

  unfoldable pub has_so_name : Text → Result Bool
  has_so_name so_name =
      unpack_two (split b':' so_name) >>= λ (pool_name, _). ok (has_pool lvm pool_name)

-- The loop of `initialize` that fills the dict; a later pool of the same group replaces an earlier.
unfoldable pub register : List Text → Dict Text → Dict Text
register [] dict = dict
register (pool_name ∷ pools) dict = register pools (insert (vg_of pool_name) pool_name dict)
